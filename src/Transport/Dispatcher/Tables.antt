-- ===== src/Transport/Dispatcher/Tables.antt =====
-- The method table: names of services and methods are told apart, and updates change one entry.
use mathlib.Core.Path.{subst}
use coro_rpc.Protocol.Metadata.{same_bytes}
use coro_rpc.Protocol.Metadata.Sound.{same_bytes→eq}
use coro_rpc.Protocol.Wire.{Bytes}
use coro_rpc.Transport.Dispatcher.{
  ServiceDispatcher, Method, MethodTable, method_key, find_method, erase_method, publish,
}
use coro_rpc.Base.{
  All, if◌then◌else◌, ◌≡◌, refl, ap, ◌≢◌, ◌↔◌, true, none, [], ◌∷◌, arith, Option-cases, ◌∙◌, inl,
  inr, some,
}

same_bytes_refl : (xs : Bytes) → same_bytes xs xs ≡ true
unfolding same_bytes
same_bytes_refl [] = refl
same_bytes_refl (x ∷ xs) = let h = same_bytes_refl xs in ground arith

pub same_bytes_iff : (xs ys : Bytes) → (same_bytes xs ys ≡ true) ↔ (xs ≡ ys)
same_bytes_iff xs ys =
    (same_bytes→eq xs ys, λ e. subst (λ zs. same_bytes xs zs ≡ true) e (same_bytes_refl xs))

-- A name without a line break.
abbrev pub IsLine : Bytes → Type 0
IsLine name = All (λ b. b ≢ b'\n') name

-- Keys tell services apart whose names have no line break.
pub method_key_injective :
    (s t m n : Bytes) → IsLine s → IsLine t → method_key s m ≡ method_key t n → (s ≡ t) × (m ≡ n)
unfolding method_key
method_key_injective [] [] m n h k e = (refl, cc)
method_key_injective [] (y ∷ t) m n h k e = absurd (ground arith)
method_key_injective (x ∷ s) [] m n h k e = absurd (ground arith)
method_key_injective (x ∷ s) (y ∷ t) m n h k e =
    let r = method_key_injective s t m n h.1 k.1 in ground arith

-- No key stands twice in the table.
abbrev pub OneEach : MethodTable → Type 0
OneEach [] = Unit {0}
OneEach ((k, m) ∷ t) = (find_method k t ≡ none) × OneEach t

pub find_method-erase_method :
    (key other : Bytes) (t : MethodTable)
    → OneEach t
    → find_method other (erase_method key t)
      ≡ (if same_bytes other key then none else find_method other t)
unfolding find_method erase_method
find_method-erase_method key other [] h = ground arith
find_method-erase_method key other ((k, m) ∷ t) h =
    let r = find_method-erase_method key other t h.1 in
    let a = same_bytes_iff other key in
    let b = same_bytes_iff key k in
    let c = same_bytes_iff other k in
    let d : other ≡ k → find_method other t ≡ none = λ e. ap (λ x. find_method x t) e ∙ h.0 in
    ground arith

pub erase_method-OneEach :
    (key : Bytes) (t : MethodTable) → OneEach t → OneEach (erase_method key t)
unfolding erase_method
erase_method-OneEach key [] h = tt
erase_method-OneEach key ((k, m) ∷ t) h =
    let r = erase_method-OneEach key t h.1 in
    let f = find_method-erase_method key k t h.1 in ground arith

find-cons :
    (key k : Bytes) (m : Method) (t : MethodTable)
    → find_method key ((k, m) ∷ t) ≡ (if same_bytes key k then some m else find_method key t)
unfolding find_method
find-cons key k m t = refl

-- The key under which an entry is kept.
abbrev pub key_of : Method → Bytes
key_of entry = method_key entry.service entry.method

pub publish_lem :
    (d : ServiceDispatcher) (entry : Method)
    → (publish d entry).1 ≡ true
    → (s m : Bytes)
    → find_method (method_key s m) (publish d entry).0.methods ≡ (
        if same_bytes (method_key s m) (key_of entry)
        then some entry
        else find_method (method_key s m) d.methods)
unfolding publish
publish_lem d entry h s m = elim (Option-cases (find_method (key_of entry) d.methods)) [
  | inr (x, e) ↦ absurd (ground arith)
  | inl n ↦ rw (n, publish) (find-cons (method_key s m) (key_of entry) entry d.methods)
]
