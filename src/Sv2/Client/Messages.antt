-- ===== src/Sv2/Client/Messages.antt =====
-- Every client message at once: what `deserialize` does on its layout, on the layout cut short, and
-- on any other bytes.
use yumtech_umbrel_apps.Prelude.{
  ◌≤◌, ℕ, ◌≡◌, refl, sym, ap, ◌∙◌, ◌⊎◌, inl, inr, [], ◌∷◌, ◌++◌, append-nil, length, length-append,
  arith,
}
use yumtech_umbrel_apps.Sv2.Writer.{Bytes, Writer}
use yumtech_umbrel_apps.Sv2.Reader.{Reader, Error, Result, M, ok, err}
use yumtech_umbrel_apps.Sv2.Decodes.{Codes, Codes-run}
use yumtech_umbrel_apps.Sv2.Stable.{extend, IsStable, bind-IsStable, pure-IsStable}
use yumtech_umbrel_apps.Sv2.Stable.Methods.{
  b0_255-IsStable, b0_32-IsStable, b0_64k-IsStable, f32-IsStable, seq0_255_u256-IsStable,
  str0_255-IsStable, u16-IsStable, u256-IsStable, u32-IsStable, u8-IsStable,
}
use yumtech_umbrel_apps.Sv2.Client.{
  SetupConnection, deserialize_setup_connection, OpenStandardMiningChannel,
  deserialize_open_standard_mining_channel, OpenExtendedMiningChannel,
  deserialize_open_extended_mining_channel, UpdateChannel, deserialize_update_channel, CloseChannel,
  deserialize_close_channel, SubmitSharesStandard, deserialize_submit_shares_standard,
  SubmitSharesExtended, deserialize_submit_shares_extended, SetCustomMiningJob,
  deserialize_set_custom_mining_job,
}
use yumtech_umbrel_apps.Sv2.Client.Layout.{
  layout_setup_connection, FitsSetupConnection, setup_connection-Codes,
  layout_open_standard_mining_channel, FitsOpenStandardMiningChannel,
  open_standard_mining_channel-Codes, layout_open_extended_mining_channel,
  FitsOpenExtendedMiningChannel, open_extended_mining_channel-Codes, layout_update_channel,
  FitsUpdateChannel, update_channel-Codes, layout_close_channel, FitsCloseChannel,
  close_channel-Codes,
}
use yumtech_umbrel_apps.Sv2.Client.Shares.{
  layout_submit_shares_standard, FitsSubmitSharesStandard, submit_shares_standard-Codes,
  layout_submit_shares_extended, FitsSubmitSharesExtended, submit_shares_extended-Codes,
  layout_set_custom_mining_job, FitsSetCustomMiningJob, set_custom_mining_job-Codes,
}

pub data Kind : Type 0 where
  setup_connection open_standard_mining_channel open_extended_mining_channel update_channel
        close_channel submit_shares_standard submit_shares_extended set_custom_mining_job :
      Kind

-- The struct of a kind, its `deserialize`, its layout, and that its fields fit it.
abbrev pub Message : Kind → Type 0
Message setup_connection = SetupConnection
Message open_standard_mining_channel = OpenStandardMiningChannel
Message open_extended_mining_channel = OpenExtendedMiningChannel
Message update_channel = UpdateChannel
Message close_channel = CloseChannel
Message submit_shares_standard = SubmitSharesStandard
Message submit_shares_extended = SubmitSharesExtended
Message set_custom_mining_job = SetCustomMiningJob

abbrev pub deserialize : (k : Kind) → M (Message k)
deserialize setup_connection = deserialize_setup_connection
deserialize open_standard_mining_channel = deserialize_open_standard_mining_channel
deserialize open_extended_mining_channel = deserialize_open_extended_mining_channel
deserialize update_channel = deserialize_update_channel
deserialize close_channel = deserialize_close_channel
deserialize submit_shares_standard = deserialize_submit_shares_standard
deserialize submit_shares_extended = deserialize_submit_shares_extended
deserialize set_custom_mining_job = deserialize_set_custom_mining_job

abbrev pub layout : (k : Kind) → Message k → Writer → Writer
layout setup_connection = layout_setup_connection
layout open_standard_mining_channel = layout_open_standard_mining_channel
layout open_extended_mining_channel = layout_open_extended_mining_channel
layout update_channel = layout_update_channel
layout close_channel = layout_close_channel
layout submit_shares_standard = layout_submit_shares_standard
layout submit_shares_extended = layout_submit_shares_extended
layout set_custom_mining_job = layout_set_custom_mining_job

abbrev pub Fits : (k : Kind) → Message k → Type 0
Fits setup_connection = FitsSetupConnection
Fits open_standard_mining_channel = FitsOpenStandardMiningChannel
Fits open_extended_mining_channel = FitsOpenExtendedMiningChannel
Fits update_channel = FitsUpdateChannel
Fits close_channel = FitsCloseChannel
Fits submit_shares_standard = FitsSubmitSharesStandard
Fits submit_shares_extended = FitsSubmitSharesExtended
Fits set_custom_mining_job = FitsSetCustomMiningJob

setup_connection-IsStable : IsStable deserialize_setup_connection
unfolding deserialize_setup_connection
setup_connection-IsStable = bind-IsStable _ _ u8-IsStable λ protocol.
    bind-IsStable _ _ u16-IsStable λ min_version. bind-IsStable _ _ u16-IsStable λ max_version.
      bind-IsStable _ _ u32-IsStable λ flags. bind-IsStable _ _ str0_255-IsStable λ endpoint_host.
        bind-IsStable _ _ u16-IsStable λ endpoint_port.
          bind-IsStable _ _ str0_255-IsStable λ vendor.
            bind-IsStable _ _ str0_255-IsStable λ hardware_version.
              bind-IsStable _ _ str0_255-IsStable
                λ firmware. bind-IsStable _ _ str0_255-IsStable λ device_id. pure-IsStable _

open_standard_mining_channel-IsStable : IsStable deserialize_open_standard_mining_channel
unfolding deserialize_open_standard_mining_channel
open_standard_mining_channel-IsStable = bind-IsStable _ _ u32-IsStable λ request_id.
    bind-IsStable _ _ str0_255-IsStable λ user_identity.
      bind-IsStable _ _ f32-IsStable
        λ nominal_hash_rate. bind-IsStable _ _ u256-IsStable λ max_target. pure-IsStable _

open_extended_mining_channel-IsStable : IsStable deserialize_open_extended_mining_channel
unfolding deserialize_open_extended_mining_channel
open_extended_mining_channel-IsStable = bind-IsStable _ _ u32-IsStable λ request_id.
    bind-IsStable _ _ str0_255-IsStable λ user_identity.
      bind-IsStable _ _ f32-IsStable λ nominal_hash_rate.
        bind-IsStable _ _ u256-IsStable
          λ max_target. bind-IsStable _ _ u16-IsStable λ min_extranonce_size. pure-IsStable _

update_channel-IsStable : IsStable deserialize_update_channel
unfolding deserialize_update_channel
update_channel-IsStable = bind-IsStable _ _ u32-IsStable λ channel_id.
    bind-IsStable _ _ f32-IsStable
      λ nominal_hash_rate. bind-IsStable _ _ u256-IsStable λ maximum_target. pure-IsStable _

close_channel-IsStable : IsStable deserialize_close_channel
unfolding deserialize_close_channel
close_channel-IsStable =
    bind-IsStable _ _ u32-IsStable
      λ channel_id. bind-IsStable _ _ str0_255-IsStable λ reason_code. pure-IsStable _

submit_shares_standard-IsStable : IsStable deserialize_submit_shares_standard
unfolding deserialize_submit_shares_standard
submit_shares_standard-IsStable = bind-IsStable _ _ u32-IsStable λ channel_id.
    bind-IsStable _ _ u32-IsStable λ sequence_number. bind-IsStable _ _ u32-IsStable λ job_id.
      bind-IsStable _ _ u32-IsStable λ nonce.
        bind-IsStable _ _ u32-IsStable
          λ ntime. bind-IsStable _ _ u32-IsStable λ version. pure-IsStable _

submit_shares_extended-IsStable : IsStable deserialize_submit_shares_extended
unfolding deserialize_submit_shares_extended
submit_shares_extended-IsStable = bind-IsStable _ _ u32-IsStable λ channel_id.
    bind-IsStable _ _ u32-IsStable λ sequence_number. bind-IsStable _ _ u32-IsStable λ job_id.
      bind-IsStable _ _ u32-IsStable λ nonce. bind-IsStable _ _ u32-IsStable λ ntime.
        bind-IsStable _ _ u32-IsStable
          λ version. bind-IsStable _ _ b0_32-IsStable λ extranonce. pure-IsStable _

set_custom_mining_job-IsStable : IsStable deserialize_set_custom_mining_job
unfolding deserialize_set_custom_mining_job
set_custom_mining_job-IsStable = bind-IsStable _ _ u32-IsStable λ channel_id.
    bind-IsStable _ _ u32-IsStable λ request_id.
      bind-IsStable _ _ b0_255-IsStable λ mining_job_token.
        bind-IsStable _ _ u32-IsStable λ version. bind-IsStable _ _ u256-IsStable λ prev_hash.
          bind-IsStable _ _ u32-IsStable λ min_ntime. bind-IsStable _ _ u32-IsStable λ nbits.
            bind-IsStable _ _ u32-IsStable λ coinbase_tx_version.
              bind-IsStable _ _ b0_255-IsStable λ coinbase_prefix.
                bind-IsStable _ _ u32-IsStable λ coinbase_tx_input_n_sequence.
                  bind-IsStable _ _ b0_64k-IsStable λ coinbase_tx_outputs.
                    bind-IsStable _ _ u32-IsStable λ coinbase_tx_locktime.
                      bind-IsStable _ _ seq0_255_u256-IsStable λ merkle_path. pure-IsStable _

pub message-Codes : (k : Kind) (m : Message k) → Fits k m → Codes (deserialize k) (layout k m) m
message-Codes setup_connection m h = setup_connection-Codes m h
message-Codes open_standard_mining_channel m h = open_standard_mining_channel-Codes m h
message-Codes open_extended_mining_channel m h = open_extended_mining_channel-Codes m h
message-Codes update_channel m h = update_channel-Codes m h
message-Codes close_channel m h = close_channel-Codes m h
message-Codes submit_shares_standard m h = submit_shares_standard-Codes m h
message-Codes submit_shares_extended m h = submit_shares_extended-Codes m h
message-Codes set_custom_mining_job m h = set_custom_mining_job-Codes m h

pub message-IsStable : (k : Kind) → IsStable (deserialize k)
message-IsStable setup_connection = setup_connection-IsStable
message-IsStable open_standard_mining_channel = open_standard_mining_channel-IsStable
message-IsStable open_extended_mining_channel = open_extended_mining_channel-IsStable
message-IsStable update_channel = update_channel-IsStable
message-IsStable close_channel = close_channel-IsStable
message-IsStable submit_shares_standard = submit_shares_standard-IsStable
message-IsStable submit_shares_extended = submit_shares_extended-IsStable
message-IsStable set_custom_mining_job = set_custom_mining_job-IsStable

-- A reader at the start of a buffer.
abbrev pub start : Bytes → Reader
start b = record { bytes = b; pos = 0 }

-- `deserialize` reads back a message from its layout, and stops right behind it.
pub deserialize-layout :
    (k : Kind) (m : Message k) (rest : Bytes)
    → Fits k m
    → deserialize k (start (layout k m [] ++ rest))
      ≡ ok (m, record { bytes = layout k m [] ++ rest; pos = length (layout k m []) })
deserialize-layout k m rest h = Codes-run (message-Codes k m h) rest

Result-cases :
    {A : Type 0} (r : Result (A × Reader))
    → ((e : Error) × (r ≡ err e)) ⊎ ((a : A) × (r' : Reader) × (r ≡ ok (a, r')))
Result-cases (ok (a, r')) = inr (a, r', refl)
Result-cases (err e) = inl (e, refl)

pos_of :
    {A : Type 0} {a b : A} {r s : Reader}
    → ◌≡◌ {A = Result (A × Reader)} (ok (a, r)) (ok (b, s))
    → r.pos ≡ s.pos
pos_of e = ground arith

-- What `deserialize` reads out of a reader inside its buffer depends on nothing behind it: it ends
-- inside the buffer, not before its start, leaves the buffer, and reads the same, to the same place,
-- when bytes are added behind.
pub deserialize-extend :
    (k : Kind) (r : Reader) (m : Message k) (r' : Reader) (more : Bytes)
    → r.pos ≤ length r.bytes
    → deserialize k r ≡ ok (m, r')
    → (r'.bytes ≡ r.bytes)
      × (r.pos ≤ r'.pos)
      × (r'.pos ≤ length r.bytes)
      × (deserialize k (extend more r) ≡ ok (m, extend more r'))
deserialize-extend k r m r' more h e =
    let reads = message-IsStable k r m r' h e in
    (reads.same, reads.forward, reads.inside, reads.local more)

-- On a layout that is cut short anywhere `deserialize` throws.
pub deserialize-truncated :
    (k : Kind) (m : Message k) (front : Bytes) (x : ℕ) (back : Bytes)
    → Fits k m
    → layout k m [] ≡ front ++ (x ∷ back)
    → (e : Error) × (deserialize k (start front) ≡ err e)
deserialize-truncated k m front x back h e = elim (Result-cases (deserialize k (start front))) [
  | inl refused ↦ refused
  | inr (a, r', got) ↦ absurd (too_far a r' got)
]
  where
    whole :
        deserialize k (start (layout k m []))
        ≡ ok (m, record { bytes = layout k m []; pos = length (layout k m []) })
    whole = rw append-nil at (deserialize-layout k m [] h)

    too_far : (a : Message k) (r' : Reader) → deserialize k (start front) ≡ ok (a, r') → ⊥
    too_far a r' got =
        let reads = message-IsStable k (start front) a r' (omega arith) got in
        omega (
          arith,
          reads.inside,
          pos_of (sym (reads.local (x ∷ back)) ∙ rw e at whole),
          ap length e,
          length-append front (x ∷ back),
        )
