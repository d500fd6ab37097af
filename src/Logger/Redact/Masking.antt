-- ===== src/Logger/Redact/Masking.antt =====
-- Masking an address that is masked already changes nothing.
use thiam_api.Base.{
  ℕ, ◌≡◌, refl, Bool, true, false, not, ◌&&◌, List, [], ◌∷◌, ◌++◌, length, ◌==◌, arith,
}
use thiam_api.Logger.Redact.{
  Bytes, push_front, split_at_sign, last_byte, masked_local, mask_parts, mask_email,
}

-- No `@` among the bytes.
abbrev plain : Bytes → Bool
plain [] = true
plain (b ∷ bs) = not (b == 64) && plain bs

all_plain : List Bytes → Bool
all_plain [] = true
all_plain (p ∷ ps) = plain p && all_plain ps

all_plain-push_front :
    (b : ℕ) (ps : List Bytes)
    → (b == 64) ≡ false
    → all_plain ps ≡ true
    → all_plain (push_front b ps) ≡ true
unfolding all_plain
all_plain-push_front b [] n h = ground arith
all_plain-push_front b (p ∷ ps) n h = ground arith

all_plain-split : (bs : Bytes) → all_plain (split_at_sign bs) ≡ true
unfolding split_at_sign all_plain
all_plain-split [] = refl
all_plain-split (b ∷ bs) =
    ground (arith, all_plain-split bs, all_plain-push_front b (split_at_sign bs))

split-plain : (d : Bytes) → plain d ≡ true → split_at_sign d ≡ d ∷ []
unfolding split_at_sign
split-plain [] h = refl
split-plain (b ∷ bs) h = ground (arith, split-plain bs)

split-join :
    (l d : Bytes) → plain l ≡ true → plain d ≡ true → split_at_sign (l ++ 64 ∷ d) ≡ l ∷ d ∷ []
unfolding split_at_sign
split-join [] d h k = ground (arith, split-plain d k)
split-join (b ∷ bs) d h k = ground (arith, split-join bs d)

plain-last_byte : (l : Bytes) → plain l ≡ true → plain (last_byte l) ≡ true
plain-last_byte [] h = refl
plain-last_byte (b ∷ []) h = h
plain-last_byte (b ∷ c ∷ bs) h = ground (arith, plain-last_byte (c ∷ bs))

plain-masked_local : (l : Bytes) → plain l ≡ true → plain (masked_local l) ≡ true
plain-masked_local [] h = ground arith
plain-masked_local (b ∷ bs) h = ground (arith, plain-last_byte (b ∷ bs) h)

length-last_byte : (b : ℕ) (bs : Bytes) → length (last_byte (b ∷ bs)) ≡ 1
length-last_byte b [] = refl
length-last_byte b (c ∷ bs) = length-last_byte c bs

masked_local_shown :
    (a : ℕ) (z : Bytes) → length z ≡ 1 → masked_local (a ∷ 42 ∷ 42 ∷ 42 ∷ z) ≡ a ∷ 42 ∷ 42 ∷ 42 ∷ z
masked_local_shown a [] h = absurd (omega arith)
masked_local_shown a (z ∷ []) h = refl
masked_local_shown a (z ∷ y ∷ zs) h = absurd (omega arith)

masked_local_twice : (l : Bytes) → masked_local (masked_local l) ≡ masked_local l
masked_local_twice [] = refl
masked_local_twice (b ∷ bs) =
    ground (arith, masked_local_shown b (last_byte (b ∷ bs)) (length-last_byte b bs))

mask_parts_twice :
    (email : Bytes) (parts : List Bytes)
    → split_at_sign email ≡ parts
    → all_plain parts ≡ true
    → mask_email (mask_parts email parts) ≡ mask_parts email parts
unfolding mask_email all_plain
mask_parts_twice email [] e h = ground arith
mask_parts_twice email (l ∷ []) e h = ground arith
mask_parts_twice email (l ∷ d ∷ []) e h =
    ground (arith, split-join (masked_local l) d, plain-masked_local l, masked_local_twice l)
mask_parts_twice email (l ∷ d ∷ p ∷ ps) e h = ground arith

-- An address that was masked is not changed by masking it again.
mask_email_twice : (email : Bytes) → mask_email (mask_email email) ≡ mask_email email
unfolding mask_email
mask_email_twice email = mask_parts_twice email (split_at_sign email) refl (all_plain-split email)
