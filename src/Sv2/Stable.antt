-- ===== src/Sv2/Stable.antt =====
-- What each reading method of `Reader` keeps to, on any input: it reads forward inside the buffer,
-- and bytes added behind the buffer do not change what it reads.
pub mod Methods
use yumtech_umbrel_apps.Prelude.{
  ℕ, zero, suc, ◌+◌, ◌≤◌, ◌<◌, ◌≡◌, refl, sym, ap, ap₂, subst, ◌∙◌, ◌⊎◌, inl, inr, Bool, true,
  false, List, [], ◌∷◌, ◌++◌, Option, none, some, length, get_or, take, drop, ltb, ltb→lt, le→ltb,
  Bool-cases, ◌==◌, if◌then◌else◌, length-append, append_assoc, arith,
}
use yumtech_umbrel_apps.Sv2.Writer.{Bytes}
use yumtech_umbrel_apps.Sv2.Reader.{
  Reader, Result, M, ok, err, byte, skip, fixed, slice, pure, throw, too_long, ◌>>=◌, le8, le16,
  le24, le32, read_u8, read_bool, read_u16, read_u24, read_u32, read_u64_loop, read_u64, read_u256,
  read_f32, read_str0_255, read_b0_32, read_b0_255, read_b0_64k, read_option_u32, read_u256_loop,
  read_seq0_255_u256,
}
use yumtech_umbrel_apps.Sv2.Decodes.{>>=-ok}

-- The same reader with more bytes behind it.
abbrev pub extend : Bytes → Reader → Reader
extend more r = record r { bytes = r.bytes ++ more }

pub record Reads {A : Type 0} (m : M A) (r : Reader) (a : A) (r' : Reader) : Type 0 where
  pub same : r'.bytes ≡ r.bytes
  pub forward : r.pos ≤ r'.pos
  pub inside : r'.pos ≤ length r.bytes
  pub local : (more : Bytes) → m (extend more r) ≡ ok (a, extend more r')

-- Every success of the method keeps to this.
abbrev pub IsStable : {A : Type 0} → M A → Type 0
IsStable {A} m =
    (r : Reader) (a : A) (r' : Reader) → r.pos ≤ length r.bytes → m r ≡ ok (a, r') → Reads m r a r'

>>=-cases :
    {A B : Type 0} (m : M A) (k : A → M B) (r : Reader) (b : B) (r'' : Reader)
    → (m >>= k) r ≡ ok (b, r'')
    → (a : A) × (r' : Reader) × (m r ≡ ok (a, r')) × (k a r' ≡ ok (b, r''))
unfolding ◌>>=◌
>>=-cases {A} {B} m k r b r'' h = split (m r) refl
  where
    split :
        (x : Result (A × Reader))
        → m r ≡ x
        → (a : A) × (r' : Reader) × (m r ≡ ok (a, r')) × (k a r' ≡ ok (b, r''))
    split (ok (a, r')) e = (a, r', e, rw (e, ◌>>=◌) at h)
    split (err x) e = cc (e, h)

pub bind-IsStable :
    {A B : Type 0} (m : M A) (k : A → M B)
    → IsStable m
    → ((a : A) → IsStable (k a))
    → IsStable (m >>= k)
bind-IsStable m k sm sk r b r'' h e =
    let (a, r', e1, e2) = >>=-cases m k r b r'' e in
    let x : Reads m r a r' = sm r a r' h e1 in
    let y : Reads (k a) r' b r'' = sk a r' b r'' (rw x.same x.inside) e2 in
    record {
      same = y.same ∙ x.same;
      forward = omega (arith, x.forward, y.forward);
      inside = rw x.same at y.inside;
      local = λ more. >>=-ok m k (extend more r) (x.local more) ∙ y.local more;
    }

pub pure-IsStable : {A : Type 0} (v : A) → IsStable (pure v)
pure-IsStable v r a r' h e = record {
  same = ground arith;
  forward = ground arith;
  inside = ground arith;
  local = λ more. ground arith;
}

pub throw-IsStable : {A : Type 0} → IsStable {A = A} (throw too_long)
throw-IsStable r a r' h e = cc

pub fixed-IsStable :
    {A : Type 0} (n : ℕ) (value : Reader → A)
    → ((r : Reader) (more : Bytes) → r.pos + n ≤ length r.bytes → value (extend more r) ≡ value r)
    → IsStable (fixed n value)
fixed-IsStable {A} n value v r a r' h e = elim (Bool-cases (ltb (length r.bytes) (r.pos + n))) [
  | inl short ↦ cc (rw short at e)
  | inr room ↦
      let e' : ◌≡◌ {A = Result (A × Reader)} (ok (value r, skip n r)) (ok (a, r')) = rw room at e in
      let fits : r.pos + n ≤ length r.bytes = ground arith in
      record {
        same = ground arith;
        forward = ground arith;
        inside = ground arith;
        local = λ more.
            rw
              (
                le→ltb (length (r.bytes ++ more)) (r.pos + n)
                    (omega (arith, length-append r.bytes more)),
                v r more fits,
              )
              (ground arith);
      }
]

pub get_or-extend :
    (xs more : Bytes) (i : ℕ) → i < length xs → get_or (xs ++ more) i 0 ≡ get_or xs i 0
get_or-extend [] more i h = elim h [ ]
get_or-extend (x ∷ xs) more zero h = refl
get_or-extend (x ∷ xs) more (suc i) h = get_or-extend xs more i (omega arith)

-- A byte that is read inside the buffer.
pub byte-extend :
    (r : Reader) (more : Bytes) (n i : ℕ)
    → r.pos + n ≤ length r.bytes
    → i < n
    → byte (extend more r) i ≡ byte r i
byte-extend r more n i h lt = get_or-extend r.bytes more (r.pos + i) (omega arith)

pub take-extend : (n : ℕ) (xs more : Bytes) → n ≤ length xs → take n (xs ++ more) ≡ take n xs
take-extend zero xs more h = refl
take-extend (suc n) [] more h = elim h [ ]
take-extend (suc n) (x ∷ xs) more h = ap (◌∷◌ x) (take-extend n xs more (omega arith))

pub slice-extend :
    (n p : ℕ) (xs more : Bytes)
    → p + n ≤ length xs
    → take n (drop p (xs ++ more)) ≡ take n (drop p xs)
slice-extend n zero xs more h = take-extend n xs more (omega arith)
slice-extend n (suc p) [] more h = absurd (omega arith)
slice-extend n (suc p) (x ∷ xs) more h = slice-extend n p xs more (omega arith)
