-- ===== src/UserList/Subdomain.antt =====
-- What `is_subdomain_of` decides.
use native.Mathlib.Numerals.{add-one}
use arataga.Prelude.{
  ℕ, zero, suc, ◌+◌, ◌-◌, ◌<◌, ◌≡◌, refl, ap, ◌∙◌, ◌⊎◌, inl, inr, ◌↔◌, true, [], ◌∷◌, ◌++◌, arith,
  length, length-append, take, drop, get_or,
}
use arataga.Prelude.Eq.{Bytes, bytes_beq_iff}
use arataga.UserList.{is_subdomain_of}

-- `fn` is the domain `d` itself, or ends in a dot and `d`.
abbrev pub Subdomain : Bytes → Bytes → Type 0
Subdomain fn d = (fn ≡ d) ⊎ ((p : Bytes) × (fn ≡ p ++ (b'.' ∷ d)))

split_at :
    (fn : Bytes) (i : ℕ) → i < length fn → fn ≡ take i fn ++ (get_or fn i 0 ∷ drop (suc i) fn)
split_at [] i h = absurd (omega arith)
split_at (x ∷ xs) zero h = refl
split_at (x ∷ xs) (suc i) h = ap (λ (l : Bytes). x ∷ l) (split_at xs i (omega arith))

get_or-middle : (p d : Bytes) (c : ℕ) → get_or (p ++ (c ∷ d)) (length p) 0 ≡ c
get_or-middle [] d c = refl
get_or-middle (x ∷ p) d c = get_or-middle p d c

drop-middle : (p d : Bytes) (c : ℕ) → drop (suc (length p)) (p ++ (c ∷ d)) ≡ d
drop-middle [] d c = refl
drop-middle (x ∷ p) d c = drop-middle p d c

-- The three facts that the last branch of the code tests.
abbrev EndsAt : Bytes → Bytes → ℕ → Type 0
EndsAt fn d pos = (length d < length fn) × (get_or fn pos 0 ≡ b'.') × (drop (suc pos) fn ≡ d)

is_subdomain_of-cases :
    (fn d : Bytes) → is_subdomain_of fn d ≡ true → (fn ≡ d) ⊎ EndsAt fn d (length fn - length d - 1)
unfolding is_subdomain_of
is_subdomain_of-cases fn d h =
    let pos = length fn - length d - 1 in
    ground (
      arith,
      bytes_beq_iff fn d,
      bytes_beq_iff (drop (suc pos) fn) d,
      ap (λ k. drop k fn) (add-one pos),
    )

is_subdomain_of-Subdomain : (fn d : Bytes) → is_subdomain_of fn d ≡ true → Subdomain fn d
is_subdomain_of-Subdomain fn d h = elim (is_subdomain_of-cases fn d h) [
  | inl e ↦ inl e
  | inr (longer, dot, rest) ↦
      let pos = length fn - length d - 1 in
      inr (take pos fn, split_at fn pos (omega arith) ∙ rw (dot, rest))
]

is_subdomain_of_refl : (d : Bytes) → is_subdomain_of d d ≡ true
unfolding is_subdomain_of
is_subdomain_of_refl d = ground (arith, bytes_beq_iff d d)

is_subdomain_of-append : (p d : Bytes) → is_subdomain_of (p ++ (b'.' ∷ d)) d ≡ true
unfolding is_subdomain_of
is_subdomain_of-append p d =
    let fn = p ++ (b'.' ∷ d) in
    let e : length fn ≡ length p + suc (length d) = length-append p (b'.' ∷ d) in
    let at : length fn - length d - 1 ≡ length p = omega arith in
    ground (
      arith,
      e,
      at,
      get_or-middle p d b'.',
      drop-middle p d b'.',
      add-one (length p),
      bytes_beq_iff (drop (length p + 1) fn) d,
      ap (λ k. drop k fn) (add-one (length p)),
      ap (λ k. get_or fn k 0) at,
      ap (λ k. drop (k + 1) fn) at,
    )

-- `is_subdomain_of` holds exactly of a domain and the names below it.
pub is_subdomain_of_iff : (fn d : Bytes) → (is_subdomain_of fn d ≡ true) ↔ Subdomain fn d
is_subdomain_of_iff fn d = (
  is_subdomain_of-Subdomain fn d,
  λ s. elim s [
    | inl e ↦ rw e (is_subdomain_of_refl d)
    | inr (p, e) ↦ rw e (is_subdomain_of-append p d)
  ],
)
