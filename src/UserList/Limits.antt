-- ===== src/UserList/Limits.antt =====
-- What `site_limits_data_t::try_find_limits_for` selects.
use mathlib.Core.List.{Memᴰ}
use native.Mathlib.Nat.{le_refl, le_trans}
use arataga.Prelude.{
  ◌≤◌, ◌≡◌, refl, sym, ap, ◌∙◌, ◌⊎◌, inl, inr, true, false, [], ◌∷◌, ◌++◌, arith, length,
  length-append, Bool-cases, Option, some, none, drop, All,
}
use arataga.Prelude.Eq.{Bytes}
use arataga.UserList.{
  is_subdomain_of, OneLimit, SiteLimitsData, better_limit, find_limits_from, try_find_limits_for,
}
use arataga.UserList.Subdomain.{Subdomain, is_subdomain_of_iff}

suffix_of_longer :
    (p q : Bytes) {x y : Bytes} → p ++ x ≡ q ++ y → length y ≤ length x → (r : Bytes) × (x ≡ r ++ y)
suffix_of_longer [] q e h = (q, e)
suffix_of_longer (c ∷ p) [] {x} {y} e h = absurd (omega (arith, ap length e, length-append p x))
suffix_of_longer (c ∷ p) (d ∷ q) e h = suffix_of_longer p q (ap (drop 1) e) h

dot_suffix : (r : Bytes) {a b : Bytes} → b'.' ∷ a ≡ r ++ (b'.' ∷ b) → Subdomain a b
dot_suffix [] e = inl (ap (drop 1) e)
dot_suffix (c ∷ r) e = inr (r, ap (drop 1) e)

-- Of two domains of one host, the shorter one has the longer one below it.
shorter_is_above :
    {host a b : Bytes} → Subdomain host a → Subdomain host b → length b ≤ length a → Subdomain a b
shorter_is_above (inl e) (inl f) h = inl (sym e ∙ f)
shorter_is_above (inl e) (inr (q, f)) h = inr (q, sym e ∙ f)
shorter_is_above {a = a} (inr (p, e)) (inl f) h =
    absurd (omega (arith, ap length (sym f ∙ e), length-append p (b'.' ∷ a)))
shorter_is_above (inr (p, e)) (inr (q, f)) h =
    let (r, g) = suffix_of_longer p q (sym e ∙ f) (omega arith) in dot_suffix r g

Subdomain-length : {fn d : Bytes} → Subdomain fn d → length d ≤ length fn
Subdomain-length (inl e) = omega (arith, ap length e)
Subdomain-length {d = d} (inr (p, e)) = omega (arith, ap length e, length-append p (b'.' ∷ d))

longer_is_below :
    (host a b : Bytes)
    → is_subdomain_of host a ≡ true
    → is_subdomain_of host b ≡ true
    → length b ≤ length a
    → is_subdomain_of a b ≡ true
longer_is_below host a b p q h =
    (is_subdomain_of_iff a b).1
      (shorter_is_above ((is_subdomain_of_iff host a).0 p) ((is_subdomain_of_iff host b).0 q) h)

below_is_longer : (a b : Bytes) → is_subdomain_of a b ≡ true → length b ≤ length a
below_is_longer a b p = Subdomain-length ((is_subdomain_of_iff a b).0 p)

-- What a candidate is known to be.
abbrev Fits : Bytes → Option OneLimit → Type 0
Fits host none = Unit {0}
Fits host (some b) = is_subdomain_of host b.domain ≡ true

-- The second candidate is there and not shorter, if the first is there.
abbrev NotShorter : Option OneLimit → Option OneLimit → Type 0
NotShorter none r = Unit {0}
NotShorter (some a) none = ⊥
NotShorter (some a) (some b) = length a.domain ≤ length b.domain

abbrev Covers : Bytes → Option OneLimit → OneLimit → Type 0
Covers host r l = is_subdomain_of host l.domain ≡ true → NotShorter (some l) r

NotShorter-trans : (a b c : Option OneLimit) → NotShorter a b → NotShorter b c → NotShorter a c
NotShorter-trans none b c h k = tt
NotShorter-trans (some a) none c h k = elim h [ ]
NotShorter-trans (some a) (some b) none h k = k
NotShorter-trans (some a) (some b) (some c) h k = le_trans h k

record Step (host : Bytes) (l : OneLimit) (last r : Option OneLimit) : Type 0 where
  fits : Fits host r
  keeps : NotShorter last r
  covers : Covers host r l
  from : (r ≡ last) ⊎ (r ≡ some l)

better_limit-Step :
    (host : Bytes) (l : OneLimit) (last : Option OneLimit)
    → Fits host last
    → Step host l last (better_limit host l last)
unfolding better_limit
better_limit-Step host l none f = ground arith
better_limit-Step host l (some b) f =
    ground (arith, longer_is_below host l.domain b.domain, below_is_longer l.domain b.domain)

record Found (host : Bytes) (ls : SiteLimitsData) (last r : Option OneLimit) : Type 0 where
  fits : Fits host r
  keeps : NotShorter last r
  covers : All (Covers host r) ls
  from : (b : OneLimit) → r ≡ some b → (last ≡ some b) ⊎ Memᴰ b ls

NotShorter-refl : (o : Option OneLimit) → NotShorter o o
NotShorter-refl none = tt
NotShorter-refl (some a) = le_refl _

find_limits_from-Found :
    (host : Bytes) (ls : SiteLimitsData) (last : Option OneLimit)
    → Fits host last
    → Found host ls last (find_limits_from host last ls)
unfolding find_limits_from
find_limits_from-Found host [] last f = record {
  fits = f;
  keeps = NotShorter-refl last;
  covers = tt;
  from = λ b e. inl e;
}
find_limits_from-Found host (l ∷ ls) last f =
    let s = better_limit-Step host l last f in
    let next = better_limit host l last in
    let rest = find_limits_from-Found host ls next s.fits in
    let r = find_limits_from host next ls in
    record {
      fits = rest.fits;
      keeps = NotShorter-trans last next r s.keeps rest.keeps;
      covers = (λ h. NotShorter-trans (some l) next r (s.covers h) rest.keeps, rest.covers);
      from = λ b e. elim (rest.from b e) [
        | inl g ↦ elim s.from [ inl k ↦ inl (sym k ∙ g) | inr k ↦ inr (Memᴰ.head (cc (sym g ∙ k))) ]
        | inr m ↦ inr (Memᴰ.tail m)
      ];
    }

-- What the search answers: nothing if no domain of the list has the host below it, and otherwise
-- an entry of the list that has, with a name at least as long as any other such entry's.
abbrev pub IsLongest : Bytes → SiteLimitsData → Option OneLimit → Type 0
IsLongest host ls none = All (λ l. is_subdomain_of host l.domain ≡ false) ls
IsLongest host ls (some b) =
    Memᴰ b ls
    × (is_subdomain_of host b.domain ≡ true)
    × All (λ l. is_subdomain_of host l.domain ≡ true → length l.domain ≤ length b.domain) ls

All-Covers-none :
    (host : Bytes) (ls : SiteLimitsData) → All (Covers host none) ls → IsLongest host ls none
All-Covers-none host [] c = tt
All-Covers-none host (l ∷ ls) c = elim (Bool-cases (is_subdomain_of host l.domain)) [
  | inl e ↦ absurd (c.0 e)
  | inr e ↦ (e, All-Covers-none host ls c.1)
]

Found-IsLongest :
    (host : Bytes) (ls : SiteLimitsData) (r : Option OneLimit)
    → Found host ls none r
    → IsLongest host ls r
Found-IsLongest host ls none f = All-Covers-none host ls f.covers
Found-IsLongest host ls (some b) f =
    (elim (f.from b refl) [ inl e ↦ cc | inr m ↦ m ], f.fits, f.covers)

-- `try_find_limits_for` answers nothing if the host is below no domain of the list; otherwise it
-- answers an entry of the list whose domain has the host below it, and no other such domain of the
-- list is longer.
pub try_find_limits_for-IsLongest :
    (host : Bytes) (ls : SiteLimitsData) → IsLongest host ls (try_find_limits_for host ls)
unfolding try_find_limits_for
try_find_limits_for-IsLongest host ls =
    Found-IsLongest host ls _ (find_limits_from-Found host ls none tt)
