-- ===== src/Protocol/Wire.antt =====
-- The integer accessors of rpc_src/protocol/frame.cpp and rpc_metadata.cpp (`PutU16` to `GetU64`).
-- A buffer is a list of bytes. `std::memcpy` of an integer moves its bytes lowest first (x86-64),
-- and `__builtin_bswap16/32/64` reverses them; the width in bytes is an argument.
use coro_rpc.Base.{
  ℕ, zero, suc, ◌+◌, ◌*◌, ◌/◌, ◌%◌, ◌^◌, ◌<◌, ◌≡◌, refl, ap, ◌∙◌, List, [], ◌∷◌, ◌++◌, reverse,
  reverse-cons, reverse-reverse, arith, IsByte, All, take, drop, length, length-reverse,
  take-append, drop-append, drop-drop, All-reverse, All-take, All-drop, ◌≤◌, length-take-drop,
  drop_split,
}
use native.Mathlib.Nat.{pow-suc}

abbrev pub Bytes : Type 0
Bytes = List ℕ

-- `memcpy(out, &value, width)` and `memcpy(&value, in, width)`.
unfoldable pub store : ℕ → ℕ → Bytes
store zero v = []
store (suc w) v = (v % 256) ∷ store w (v / 256)

unfoldable pub load : Bytes → ℕ
load [] = 0
load (b ∷ bs) = b + 256 * load bs

unfoldable pub bswap : ℕ → ℕ → ℕ
unfolding store load
bswap w v = load (reverse (store w v))

-- `PutU16`, `PutU32`, `PutU64`: the bytes that are written.
unfoldable pub put : ℕ → ℕ → Bytes
unfolding bswap
put w v = store w (bswap w v)

-- `GetU16`, `GetU32`, `GetU64` at `buffer + offset`.
unfoldable pub get : ℕ → Bytes → ℕ → ℕ
unfolding bswap
get w buffer offset = bswap w (load (take w (drop offset buffer)))

pub length-store : (w v : ℕ) → length (store w v) ≡ w
unfolding store
length-store zero v = refl
length-store (suc w) v = ap suc (length-store w (v / 256))

pub store-IsByte : (w v : ℕ) → All IsByte (store w v)
unfolding store
store-IsByte zero v = tt
store-IsByte (suc w) v = (omega arith, store-IsByte w (v / 256))

store-load : (w : ℕ) (bs : Bytes) → length bs ≡ w → All IsByte bs → store w (load bs) ≡ bs
unfolding store load
store-load zero [] e h = refl
store-load zero (b ∷ bs) e h = absurd (omega arith)
store-load (suc w) [] e h = absurd (omega arith)
store-load (suc w) (b ∷ bs) e h =
    let low : (b + 256 * load bs) % 256 ≡ b = omega arith in
    let high : (b + 256 * load bs) / 256 ≡ load bs = omega arith in
    rw (low, high) (ap (◌∷◌ b) (store-load w bs (omega arith) h.1))

load-store : (w v : ℕ) → v < 256 ^ w → load (store w v) ≡ v
unfolding store load
load-store zero v h = omega arith
load-store (suc w) v h =
    let bound : v / 256 < 256 ^ w = omega (arith, pow-suc 256 w) in
    omega (arith, load-store w (v / 256) bound)

load_bound : (bs : Bytes) → All IsByte bs → load bs < 256 ^ length bs
unfolding load
load_bound [] h = omega arith
load_bound (b ∷ bs) h = omega (arith, load_bound bs h.1, pow-suc 256 (length bs))

-- What `put` writes: the bytes of the integer, highest first.
pub put-reverse : (w v : ℕ) → put w v ≡ reverse (store w v)
unfolding put
put-reverse w v =
    unfold bswap in
    store-load w (reverse (store w v)) (length-reverse (store w v) ∙ length-store w v)
      (All-reverse IsByte (store w v) (store-IsByte w v))

pub length-put : (w v : ℕ) → length (put w v) ≡ w
length-put w v = rw (put-reverse w v) (length-reverse (store w v) ∙ length-store w v)

pub put-IsByte : (w v : ℕ) → All IsByte (put w v)
put-IsByte w v = rw (put-reverse w v) (All-reverse IsByte (store w v) (store-IsByte w v))

-- What `get` reads: the bytes at the offset, highest first.
get-reverse :
    (w : ℕ) (buffer : Bytes) (offset : ℕ)
    → All IsByte buffer
    → length (take w (drop offset buffer)) ≡ w
    → get w buffer offset ≡ load (reverse (take w (drop offset buffer)))
unfolding get
get-reverse w buffer offset h e =
    ap (λ (bs : Bytes). load (reverse bs))
      (store-load w (take w (drop offset buffer)) e
        (All-take IsByte w (drop offset buffer) (All-drop IsByte offset buffer h)))

pub get_bound :
    (w : ℕ) (buffer : Bytes) (offset : ℕ)
    → All IsByte buffer
    → length (take w (drop offset buffer)) ≡ w
    → get w buffer offset < 256 ^ w
get_bound w buffer offset h e =
    let field = take w (drop offset buffer) in
    let bytes =
      All-reverse IsByte field
        (All-take IsByte w (drop offset buffer) (All-drop IsByte offset buffer h)) in
    let width : length (reverse field) ≡ w = length-reverse field ∙ e in
    rw (get-reverse w buffer offset h e) (rw width at (load_bound (reverse field) bytes))

-- Reading at the offset where an integer was written gives it back, whatever stands round it.
pub get-put :
    (w v : ℕ) (before after : Bytes) (offset : ℕ)
    → v < 256 ^ w
    → length before ≡ offset
    → get w (before ++ (put w v ++ after)) offset ≡ v
unfolding get
get-put w v before after offset h e = rw (drop-append offset before (put w v ++ after) e) (
    rw (take-append w (put w v) after (length-put w v)) (
      rw (put-reverse w v) (
        unfold bswap in
        rw
          (store-load w (reverse (store w v)) (length-reverse (store w v) ∙ length-store w v)
            (All-reverse IsByte (store w v) (store-IsByte w v)))
          (rw (reverse-reverse (store w v)) (load-store w v h)))))

-- Reading past a first part, and at the front.
pub get-append :
    (w n : ℕ) (xs ys : Bytes) (offset : ℕ)
    → length xs ≡ n
    → get w (xs ++ ys) (n + offset) ≡ get w ys offset
unfolding get
get-append w n xs ys offset e =
    rw (← drop-drop offset n (xs ++ ys)) (rw (drop-append n xs ys e) refl)

pub get-put_front : (w v : ℕ) (after : Bytes) → v < 256 ^ w → get w (put w v ++ after) 0 ≡ v
get-put_front w v after h = get-put w v [] after 0 h refl

-- Writing what was read gives the bytes back.
pub put-get :
    (w : ℕ) (buffer : Bytes) (offset : ℕ)
    → All IsByte buffer
    → length (take w (drop offset buffer)) ≡ w
    → put w (get w buffer offset) ≡ take w (drop offset buffer)
put-get w buffer offset h e =
    let field = take w (drop offset buffer) in
    let bytes =
      All-reverse IsByte field
        (All-take IsByte w (drop offset buffer) (All-drop IsByte offset buffer h)) in
    rw (put-reverse w (get w buffer offset), get-reverse w buffer offset h e)
      (rw (store-load w (reverse field) (length-reverse field ∙ e) bytes) (reverse-reverse field))

-- A suffix of the buffer begins with the integer that is read at its offset.
pub drop-get :
    (w : ℕ) (buffer : Bytes) (offset : ℕ)
    → All IsByte buffer
    → offset + w ≤ length buffer
    → drop offset buffer ≡ put w (get w buffer offset) ++ drop (offset + w) buffer
drop-get w buffer offset h e =
    rw (put-get w buffer offset h (length-take-drop offset w buffer e)) (drop_split offset w buffer)

-- Reading at an offset from a position is reading in the suffix from there.
pub get-drop : (w n k : ℕ) (buffer : Bytes) → get w buffer (n + k) ≡ get w (drop n buffer) k
unfolding get
get-drop w n k buffer = rw (drop-drop k n buffer)

pub get-drop_front : (w n : ℕ) (buffer : Bytes) → get w buffer n ≡ get w (drop n buffer) 0
unfolding get
get-drop_front w n buffer = refl

-- Network byte order: the value of a run of bytes, highest first.
unfoldable pub big_endian : ℕ → Bytes → ℕ
big_endian acc [] = acc
big_endian acc (b ∷ bs) = big_endian (acc * 256 + b) bs

big_endian-append :
    (acc : ℕ) (xs ys : Bytes) → big_endian acc (xs ++ ys) ≡ big_endian (big_endian acc xs) ys
unfolding big_endian
big_endian-append acc [] ys = refl
big_endian-append acc (x ∷ xs) ys = big_endian-append (acc * 256 + x) xs ys

big_endian_one : (acc b : ℕ) → big_endian acc (b ∷ []) ≡ acc * 256 + b
unfolding big_endian
big_endian_one acc b = refl

big_endian-reverse : (bs : Bytes) → big_endian 0 (reverse bs) ≡ load bs
unfolding load
big_endian-reverse [] = unfold big_endian in refl
big_endian-reverse (b ∷ bs) = rw (reverse-cons b bs) (
    rw (big_endian-append 0 (reverse bs) (b ∷ []))
      (rw (big_endian_one (big_endian 0 (reverse bs)) b) (omega (arith, big_endian-reverse bs))))

-- An integer that fits its width is written in network byte order.
big_endian-put : (w v : ℕ) → v < 256 ^ w → big_endian 0 (put w v) ≡ v
big_endian-put w v h = rw (put-reverse w v) (big_endian-reverse (store w v) ∙ load-store w v h)
