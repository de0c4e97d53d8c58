-- ===== src/Sv2/Server/Messages.antt =====
-- Every message of the pool at once: a peer reads back what `serialize` wrote, also out of a frame.
use yumtech_umbrel_apps.Prelude.{sym, subst, ◌∙◌, ℕ, ◌<◌, ◌^◌, ◌≡◌, [], ◌++◌, length}
use yumtech_umbrel_apps.Sv2.Writer.{Bytes, Writer, IsU24}
use yumtech_umbrel_apps.Sv2.Reader.{M, ok, pure, ◌>>=◌}
use yumtech_umbrel_apps.Sv2.Decodes.{Codes, bind-Codes, Codes-append, pure-Codes, Codes-run}
use yumtech_umbrel_apps.Sv2.Frame.{Header, deserialize_header, serialize_header, wrap_message}
use yumtech_umbrel_apps.Sv2.Frame.RoundTrip.{
  framed, wrap_message_lem, header-Codes, extension_of-IsU16,
}
use yumtech_umbrel_apps.Sv2.Server.{
  SetupConnectionSuccess, serialize_setup_connection_success, SetupConnectionError,
  serialize_setup_connection_error, OpenStandardMiningChannelSuccess,
  serialize_open_standard_mining_channel_success, OpenMiningChannelError,
  serialize_open_mining_channel_error, OpenExtendedMiningChannelSuccess,
  serialize_open_extended_mining_channel_success, NewExtendedMiningJob,
  serialize_new_extended_mining_job, NewMiningJob, serialize_new_mining_job, SubmitSharesSuccess,
  serialize_submit_shares_success, SubmitSharesError, serialize_submit_shares_error, SetTarget,
  serialize_set_target, SetNewPrevHash, serialize_set_new_prev_hash, SetCustomMiningJobSuccess,
  serialize_set_custom_mining_job_success, SetCustomMiningJobError,
  serialize_set_custom_mining_job_error,
}
use yumtech_umbrel_apps.Sv2.Server.Peer.{
  peer_setup_connection_success, FitsSetupConnectionSuccess, setup_connection_success-Codes,
  peer_setup_connection_error, FitsSetupConnectionError, setup_connection_error-Codes,
  peer_open_standard_mining_channel_success, FitsOpenStandardMiningChannelSuccess,
  open_standard_mining_channel_success-Codes, peer_open_mining_channel_error,
  FitsOpenMiningChannelError, open_mining_channel_error-Codes,
  peer_open_extended_mining_channel_success, FitsOpenExtendedMiningChannelSuccess,
  open_extended_mining_channel_success-Codes, peer_new_extended_mining_job,
  FitsNewExtendedMiningJob, new_extended_mining_job-Codes,
}
use yumtech_umbrel_apps.Sv2.Server.Replies.{
  peer_new_mining_job, FitsNewMiningJob, new_mining_job-Codes, peer_submit_shares_success,
  FitsSubmitSharesSuccess, submit_shares_success-Codes, peer_submit_shares_error,
  FitsSubmitSharesError, submit_shares_error-Codes, peer_set_target, FitsSetTarget,
  set_target-Codes, peer_set_new_prev_hash, FitsSetNewPrevHash, set_new_prev_hash-Codes,
  peer_set_custom_mining_job_success, FitsSetCustomMiningJobSuccess,
  set_custom_mining_job_success-Codes, peer_set_custom_mining_job_error,
  FitsSetCustomMiningJobError, set_custom_mining_job_error-Codes,
}

pub data Kind : Type 0 where
  setup_connection_success setup_connection_error open_standard_mining_channel_success
        open_mining_channel_error open_extended_mining_channel_success new_extended_mining_job
        new_mining_job submit_shares_success submit_shares_error set_target set_new_prev_hash
        set_custom_mining_job_success set_custom_mining_job_error :
      Kind

-- The struct of a kind, its `serialize`, how a peer reads it, and that its fields fit the wire.
abbrev pub Message : Kind → Type 0
Message setup_connection_success = SetupConnectionSuccess
Message setup_connection_error = SetupConnectionError
Message open_standard_mining_channel_success = OpenStandardMiningChannelSuccess
Message open_mining_channel_error = OpenMiningChannelError
Message open_extended_mining_channel_success = OpenExtendedMiningChannelSuccess
Message new_extended_mining_job = NewExtendedMiningJob
Message new_mining_job = NewMiningJob
Message submit_shares_success = SubmitSharesSuccess
Message submit_shares_error = SubmitSharesError
Message set_target = SetTarget
Message set_new_prev_hash = SetNewPrevHash
Message set_custom_mining_job_success = SetCustomMiningJobSuccess
Message set_custom_mining_job_error = SetCustomMiningJobError

abbrev pub serialize : (k : Kind) → Message k → Writer → Writer
serialize setup_connection_success = serialize_setup_connection_success
serialize setup_connection_error = serialize_setup_connection_error
serialize open_standard_mining_channel_success = serialize_open_standard_mining_channel_success
serialize open_mining_channel_error = serialize_open_mining_channel_error
serialize open_extended_mining_channel_success = serialize_open_extended_mining_channel_success
serialize new_extended_mining_job = serialize_new_extended_mining_job
serialize new_mining_job = serialize_new_mining_job
serialize submit_shares_success = serialize_submit_shares_success
serialize submit_shares_error = serialize_submit_shares_error
serialize set_target = serialize_set_target
serialize set_new_prev_hash = serialize_set_new_prev_hash
serialize set_custom_mining_job_success = serialize_set_custom_mining_job_success
serialize set_custom_mining_job_error = serialize_set_custom_mining_job_error

abbrev pub peer : (k : Kind) → M (Message k)
peer setup_connection_success = peer_setup_connection_success
peer setup_connection_error = peer_setup_connection_error
peer open_standard_mining_channel_success = peer_open_standard_mining_channel_success
peer open_mining_channel_error = peer_open_mining_channel_error
peer open_extended_mining_channel_success = peer_open_extended_mining_channel_success
peer new_extended_mining_job = peer_new_extended_mining_job
peer new_mining_job = peer_new_mining_job
peer submit_shares_success = peer_submit_shares_success
peer submit_shares_error = peer_submit_shares_error
peer set_target = peer_set_target
peer set_new_prev_hash = peer_set_new_prev_hash
peer set_custom_mining_job_success = peer_set_custom_mining_job_success
peer set_custom_mining_job_error = peer_set_custom_mining_job_error

abbrev pub Fits : (k : Kind) → Message k → Type 0
Fits setup_connection_success = FitsSetupConnectionSuccess
Fits setup_connection_error = FitsSetupConnectionError
Fits open_standard_mining_channel_success = FitsOpenStandardMiningChannelSuccess
Fits open_mining_channel_error = FitsOpenMiningChannelError
Fits open_extended_mining_channel_success = FitsOpenExtendedMiningChannelSuccess
Fits new_extended_mining_job = FitsNewExtendedMiningJob
Fits new_mining_job = FitsNewMiningJob
Fits submit_shares_success = FitsSubmitSharesSuccess
Fits submit_shares_error = FitsSubmitSharesError
Fits set_target = FitsSetTarget
Fits set_new_prev_hash = FitsSetNewPrevHash
Fits set_custom_mining_job_success = FitsSetCustomMiningJobSuccess
Fits set_custom_mining_job_error = FitsSetCustomMiningJobError

message-Codes : (k : Kind) (m : Message k) → Fits k m → Codes (peer k) (serialize k m) m
message-Codes setup_connection_success m h = setup_connection_success-Codes m h
message-Codes setup_connection_error m h = setup_connection_error-Codes m h
message-Codes open_standard_mining_channel_success m h =
    open_standard_mining_channel_success-Codes m h
message-Codes open_mining_channel_error m h = open_mining_channel_error-Codes m h
message-Codes open_extended_mining_channel_success m h =
    open_extended_mining_channel_success-Codes m h
message-Codes new_extended_mining_job m h = new_extended_mining_job-Codes m h
message-Codes new_mining_job m h = new_mining_job-Codes m h
message-Codes submit_shares_success m h = submit_shares_success-Codes m h
message-Codes submit_shares_error m h = submit_shares_error-Codes m h
message-Codes set_target m h = set_target-Codes m h
message-Codes set_new_prev_hash m h = set_new_prev_hash-Codes m h
message-Codes set_custom_mining_job_success m h = set_custom_mining_job_success-Codes m h
message-Codes set_custom_mining_job_error m h = set_custom_mining_job_error-Codes m h

-- A peer that reads a frame: its header, then its payload.
abbrev pub peer_frame : (k : Kind) → M (Header × Message k)
peer_frame k = do h ← deserialize_header; m ← peer k; pure (h, m)

-- A peer reads from the pool's frame the header and the message that the pool put into it, and stops
-- at the end of the frame.
pub peer_frame-wrap_message :
    (k : Kind) (m : Message k) (ext msg_type : ℕ) (rest : Bytes)
    → Fits k m
    → ext < 2 ^ 15
    → IsU24 (length (serialize k m []))
    → let frame = wrap_message ext msg_type (serialize k m []) in
      peer_frame k (record { bytes = frame ++ rest; pos = 0 })
      ≡ ok (
        (framed ext msg_type (serialize k m []), m),
        record { bytes = frame ++ rest; pos = length frame },
      )
peer_frame-wrap_message k m ext msg_type rest fits e l =
    subst
      (λ frame.
        peer_frame k (record { bytes = frame ++ rest; pos = 0 })
        ≡ ok ((h, m), record { bytes = frame ++ rest; pos = length frame }))
      (Codes-append (message-Codes k m fits) (serialize_header h [])
        ∙ sym (wrap_message_lem ext msg_type (serialize k m []) e l))
      (Codes-run codes rest)
  where
    h : Header
    h = framed ext msg_type (serialize k m [])

    codes : Codes (peer_frame k) (λ w. serialize k m (serialize_header h w)) (h, m)
    codes =
        bind-Codes _ (header-Codes h (extension_of-IsU16 ext msg_type e) l)
          (bind-Codes _ (message-Codes k m fits) (pure-Codes (h, m)))
