-- ===== src/Block/Reversal.antt =====
-- `byte_reverse_hex` reverses the bytes behind the text, and is its own inverse.
use yumtech_umbrel_apps.Prelude.{
  ℕ, zero, suc, ◌*◌, ◌/◌, ◌%◌, ◌^◌, ◌≡◌, refl, ap, ◌∙◌, [], ◌∷◌, ◌++◌, append_assoc, append-nil,
  length, arith,
}
use mathlib.Core.List.{reverse, reverse-cons}
use yumtech_umbrel_apps.Prelude.Texts.{Text}
use yumtech_umbrel_apps.Hex.{hex_digit, bytes_to_hex}
use yumtech_umbrel_apps.Block.{Bytes, reverse_pairs, byte_reverse_hex}

bytes_to_hex-append : (xs ys : Bytes) → bytes_to_hex (xs ++ ys) ≡ bytes_to_hex xs ++ bytes_to_hex ys
unfolding bytes_to_hex
bytes_to_hex-append [] ys = refl
bytes_to_hex-append (x ∷ xs) ys =
    ap (λ t. hex_digit (x / 2 ^ 4) ∷ hex_digit (x % 16) ∷ t) (bytes_to_hex-append xs ys)

reverse_pairs-bytes_to_hex :
    (bs out : Bytes)
    → reverse_pairs (bytes_to_hex bs) (bytes_to_hex out) ≡ bytes_to_hex (reverse bs ++ out)
unfolding reverse_pairs bytes_to_hex
reverse_pairs-bytes_to_hex [] out = refl
reverse_pairs-bytes_to_hex (b ∷ bs) out =
    rw (reverse-cons, append_assoc) (reverse_pairs-bytes_to_hex bs (b ∷ out))

-- On the text of bytes it gives the text of the same bytes from the last to the first.
pub byte_reverse_hex-bytes_to_hex :
    (bs : Bytes) → byte_reverse_hex (bytes_to_hex bs) ≡ bytes_to_hex (reverse bs)
unfolding byte_reverse_hex bytes_to_hex
byte_reverse_hex-bytes_to_hex bs =
    reverse_pairs-bytes_to_hex bs [] ∙ ap bytes_to_hex (append-nil (reverse bs))

reverse_pairs-reverse_pairs :
    (n : ℕ) (h out back : Text)
    → length h ≡ 2 * n
    → reverse_pairs (reverse_pairs h out) back ≡ reverse_pairs out (h ++ back)
unfolding reverse_pairs
reverse_pairs-reverse_pairs n [] out back e = refl
reverse_pairs-reverse_pairs n (a ∷ []) out back e = absurd (omega arith)
reverse_pairs-reverse_pairs zero (a ∷ b ∷ h) out back e = absurd (omega arith)
reverse_pairs-reverse_pairs (suc n) (a ∷ b ∷ h) out back e =
    reverse_pairs-reverse_pairs n h (a ∷ b ∷ out) back (omega (arith, e))

-- Applied twice to a text of even length it gives that text.
pub byte_reverse_hex-byte_reverse_hex :
    (n : ℕ) (h : Text) → length h ≡ 2 * n → byte_reverse_hex (byte_reverse_hex h) ≡ h
unfolding byte_reverse_hex reverse_pairs
byte_reverse_hex-byte_reverse_hex n h e = reverse_pairs-reverse_pairs n h [] [] e ∙ append-nil h
