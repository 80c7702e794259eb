-- ===== src/Server/Keys/Injective.antt =====
-- That the key of an idempotent request tells its parts apart.
use coro_rpc.Protocol.Wire.{Bytes}
use coro_rpc.Server.Keys.{digits, to_string, append_key_part, build_idempotency_key}
use coro_rpc.Base.{
  ℕ, All, All-append, ltb, Bool-cases, zero, suc, ◌+◌, ◌-◌, ◌*◌, ◌/◌, ◌%◌, ◌<◌, ◌≡◌, refl, inl, inr,
  [], ◌∷◌, ◌++◌, arith, length, IsU64, sym, ap, ◌∙◌, append-nil, append_assoc,
}

-- A decimal digit.
abbrev IsDigit : ℕ → Type 0
IsDigit b = b < b':'

digits-IsDigit : (fuel n : ℕ) → All IsDigit (digits fuel n)
unfolding digits
digits-IsDigit zero n = tt
digits-IsDigit (suc fuel) n = elim (Bool-cases (ltb n 10)) [
  | inl e ↦ rw e (ground arith)
  | inr e ↦ rw e (
      All-append IsDigit (digits fuel (n / 10)) ((b'0' + n % 10) ∷ [])
        (digits-IsDigit fuel (n / 10)) (omega arith, tt))
]

-- The value of a numeral.
value : ℕ → Bytes → ℕ
value acc [] = acc
value acc (b ∷ bs) = value (acc * 10 + (b - b'0')) bs

value-append : (acc : ℕ) (xs ys : Bytes) → value acc (xs ++ ys) ≡ value (value acc xs) ys
unfolding value
value-append acc [] ys = refl
value-append acc (x ∷ xs) ys = value-append (acc * 10 + (x - b'0')) xs ys

-- A power of ten.
abbrev ten_to : ℕ → ℕ
ten_to zero = 1
ten_to (suc k) = 10 * ten_to k

value-digits : (fuel n : ℕ) → n < ten_to fuel → value 0 (digits fuel n) ≡ n
unfolding digits value
value-digits zero n h = ground arith
value-digits (suc fuel) n h = elim (Bool-cases (ltb n 10)) [
  | inl e ↦ rw e (ground arith)
  | inr e ↦
      let b : value 0 (digits fuel (n / 10)) ≡ n / 10 = value-digits fuel (n / 10) (omega arith) in
      rw (e, value-append 0 (digits fuel (n / 10)) ((b'0' + n % 10) ∷ []), b) (omega arith)
]

value-to_string : (n : ℕ) → IsU64 n → value 0 (to_string n) ≡ n
unfolding to_string
value-to_string n h = value-digits 20 n (omega arith)

-- The first colon ends the number.
colon-cancel :
    (ds es xs ys : Bytes)
    → All IsDigit ds
    → All IsDigit es
    → ds ++ (b':' ∷ xs) ≡ es ++ (b':' ∷ ys)
    → (ds ≡ es) × (xs ≡ ys)
colon-cancel [] [] xs ys h k e = ground arith
colon-cancel [] (b ∷ es) xs ys h k e = absurd (ground arith)
colon-cancel (a ∷ ds) [] xs ys h k e = absurd (ground arith)
colon-cancel (a ∷ ds) (b ∷ es) xs ys h k e =
    let r = colon-cancel ds es xs ys h.1 k.1 (ground arith) in ground arith

-- A part of a key.
key_part : Bytes → Bytes
key_part v = to_string (length v) ++ (b':' ∷ v)

split_at : (v w r s : Bytes) → length v ≡ length w → v ++ r ≡ w ++ s → (v ≡ w) × (r ≡ s)
split_at [] [] r s l e = (refl, e)
split_at [] (b ∷ w) r s l e = absurd (omega arith)
split_at (a ∷ v) [] r s l e = absurd (omega arith)
split_at (a ∷ v) (b ∷ w) r s l e =
    let c = split_at v w r s (omega arith) (ground arith) in ground arith

key_part-cancel :
    (v w r s : Bytes)
    → IsU64 (length v)
    → IsU64 (length w)
    → key_part v ++ r ≡ key_part w ++ s
    → (v ≡ w) × (r ≡ s)
unfolding key_part to_string
key_part-cancel v w r s h k e =
    let c =
      colon-cancel (to_string (length v)) (to_string (length w)) (v ++ r) (w ++ s)
        (digits-IsDigit 20 (length v)) (digits-IsDigit 20 (length w))
        (sym (append_assoc (to_string (length v)) (b':' ∷ v) r)
          ∙ (e ∙ append_assoc (to_string (length w)) (b':' ∷ w) s)) in
    let l : length v ≡ length w =
      sym (value-to_string (length v) h) ∙ (ap (value 0) c.0 ∙ value-to_string (length w) k) in
    split_at v w r s l c.1

append_key_part_lem : (key v : Bytes) → append_key_part key v ≡ key ++ key_part v
unfolding append_key_part key_part
append_key_part_lem key v = simp append_assoc

build_idempotency_key_lem :
    (a b c d : Bytes)
    → build_idempotency_key a b c d
      ≡ key_part a ++ (key_part b ++ (key_part c ++ (key_part d ++ [])))
unfolding build_idempotency_key
build_idempotency_key_lem a b c d = simp (append_key_part_lem, append_assoc, append-nil)

-- Two requests have one idempotency key only if they come from one caller scope, name one service and
-- one method, and carry one key, whatever bytes these four hold; their lengths are those of
-- `std::size_t`.
pub build_idempotency_key-inj :
    (a b c d a' b' c' d' : Bytes)
    → All (λ v. IsU64 (length v)) (a ∷ b ∷ c ∷ d ∷ [])
    → All (λ v. IsU64 (length v)) (a' ∷ b' ∷ c' ∷ d' ∷ [])
    → build_idempotency_key a b c d ≡ build_idempotency_key a' b' c' d'
    → (a ≡ a') × (b ≡ b') × (c ≡ c') × (d ≡ d')
build_idempotency_key-inj a b c d a' b' c' d' h k e =
    let f = sym (build_idempotency_key_lem a b c d) ∙ (e ∙ build_idempotency_key_lem a' b' c' d') in
    let p = key_part-cancel a a' _ _ h.0 k.0 f in
    let q = key_part-cancel b b' _ _ h.1.0 k.1.0 p.1 in
    let r = key_part-cancel c c' _ _ h.1.1.0 k.1.1.0 q.1 in
    let s = key_part-cancel d d' _ _ h.1.1.1.0 k.1.1.1.0 r.1 in (p.0, q.0, r.0, s.0)
