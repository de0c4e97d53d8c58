-- ===== src/Sv2/Decodes.antt =====
-- What it means that a reading method decodes some bytes, and the methods of `Reader` against those
-- of `Writer`.
use yumtech_umbrel_apps.Prelude.{
  ℕ, suc, ◌+◌, ◌≤◌, ◌≡◌, refl, sym, ap, ap₂, ◌∙◌, [], ◌∷◌, ◌++◌, append_assoc, append-nil, length,
  get_or, le→ltb, length-append, arith,
}
use yumtech_umbrel_apps.Sv2.Writer.{Bytes, Writer}
use yumtech_umbrel_apps.Sv2.Reader.{Reader, M, ok, skip, fixed, pure, ◌>>=◌}

-- A reader that has passed `pre` and has `rest` before it.
abbrev pub at : Bytes → Bytes → Reader
at pre rest = record { bytes = pre ++ rest; pos = length pre }

-- Wherever `bs` stands before the reader, `m` returns `v` and stops right behind `bs`.
abbrev pub Decodes : {A : Type 0} → M A → Bytes → A → Type 0
Decodes m bs v = (pre rest : Bytes) → m (at pre (bs ++ rest)) ≡ ok (v, at (pre ++ bs) rest)

at-skip : (pre bs rest : Bytes) → skip (length bs) (at pre (bs ++ rest)) ≡ at (pre ++ bs) rest
at-skip pre bs rest =
    ap₂ (λ b p. record { bytes = b; pos = p }) (sym (append_assoc pre bs rest))
      (sym (length-append pre bs))

pub get_or-append : (pre xs : Bytes) (i : ℕ) → get_or (pre ++ xs) (length pre + i) 0 ≡ get_or xs i 0
get_or-append [] xs i = ap (λ j. get_or xs j 0) (omega arith)
get_or-append (p ∷ pre) xs i =
    ap (λ j. get_or (p ∷ (pre ++ xs)) j 0) shifted ∙ get_or-append pre xs i
  where
    shifted : length (p ∷ pre) + i ≡ suc (length pre + i)
    shifted = omega arith

-- A read of `n` bytes that are there.
pub fixed-Decodes :
    {A : Type 0} (n : ℕ) (value : Reader → A) (bs : Bytes) (v : A)
    → length bs ≡ n
    → ((pre rest : Bytes) → value (at pre (bs ++ rest)) ≡ v)
    → Decodes (fixed n value) bs v
fixed-Decodes n value bs v e h pre rest =
    rw (le→ltb (length (pre ++ (bs ++ rest))) (length pre + n) room) (
      ap₂ (λ a r. ok (a, r)) (h pre rest)
        (ap (λ k. skip k (at pre (bs ++ rest))) (sym e) ∙ at-skip pre bs rest))
  where
    room : length pre + n ≤ length (pre ++ (bs ++ rest))
    room = omega (arith, e, length-append pre (bs ++ rest), length-append bs rest)

pub >>=-ok :
    {A B : Type 0} (m : M A) (f : A → M B) (r : Reader) {a : A} {r' : Reader}
    → m r ≡ ok (a, r')
    → (m >>= f) r ≡ f a r'
unfolding ◌>>=◌
>>=-ok m f r e = rw (e, ◌>>=◌)

pub bind-Decodes :
    {A B : Type 0} (m : M A) (f : A → M B) (bs cs : Bytes) {v : A} {w : B}
    → Decodes m bs v
    → Decodes (f v) cs w
    → Decodes (m >>= f) (bs ++ cs) w
bind-Decodes m f bs cs h k pre rest =
    rw (append_assoc bs cs rest, ← append_assoc pre bs cs)
      (>>=-ok m f (at pre (bs ++ (cs ++ rest))) (h pre (cs ++ rest)) ∙ k (pre ++ bs) rest)

pub pure-Decodes : {A : Type 0} (v : A) → Decodes (pure v) [] v
pure-Decodes v pre rest = ap (λ p. ok (v, at p rest)) (sym (append-nil pre))

-- `f` only appends to its writer, and `m` decodes what it appends as `v`.
pub record Codes {A : Type 0} (m : M A) (f : Writer → Writer) (v : A) : Type 0 where
  pub tail : Bytes
  pub appends : (w : Writer) → f w ≡ w ++ tail
  pub decodes : Decodes m tail v

pub bind-Codes :
    {A B : Type 0} {m : M A} (k : A → M B) {f g : Writer → Writer} {v : A} {u : B}
    → Codes m f v
    → Codes (k v) g u
    → Codes (m >>= k) (λ w. g (f w)) u
bind-Codes {m = m} k {f = f} c d = record {
  tail = c.tail ++ d.tail;
  appends =
      λ w. d.appends (f w) ∙ ap (λ t. t ++ d.tail) (c.appends w) ∙ append_assoc w c.tail d.tail;
  decodes = bind-Decodes m k c.tail d.tail c.decodes d.decodes;
}

pub pure-Codes : {A : Type 0} (v : A) → Codes (pure v) (λ w. w) v
pure-Codes v = record { tail = []; appends = λ w. sym (append-nil w); decodes = pure-Decodes v }

-- What was written from the empty buffer on is read from the start of any buffer that begins so.
pub Codes-run :
    {A : Type 0} {m : M A} {f : Writer → Writer} {v : A}
    → Codes m f v
    → (rest : Bytes)
    → m (record { bytes = f [] ++ rest; pos = 0 })
      ≡ ok (v, record { bytes = f [] ++ rest; pos = length (f []) })
Codes-run c rest = rw (c.appends []) (c.decodes [] rest)

-- What is written behind a buffer is what is written from the empty one.
pub Codes-append :
    {A : Type 0} {m : M A} {f : Writer → Writer} {v : A}
    → Codes m f v
    → (w : Writer) → f w ≡ w ++ f []
Codes-append c w = rw (c.appends w, c.appends []) refl
