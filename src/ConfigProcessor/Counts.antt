-- ===== src/ConfigProcessor/Counts.antt =====
-- arataga/config_processor/a_processor.cpp: the steps on the counters of the IO-threads.
use arataga.Prelude.{
  ℕ, zero, suc, ◌+◌, ◌≤◌, ◌<◌, ◌%◌, ◌≡◌, refl, ap, ◌∙◌, Bool, List, [], ◌∷◌, arith, length,
  length-append, get_or, update_at, ◌==◌, ltb, if◌then◌else◌,
}
use native.Mathlib.Nat.{mod-lt}
use arataga.Prelude.Sorting.{count_if, count_if-append}
use arataga.Words.{add64_lem, sub64_lem}
use arataga.Config.{AclConfig, Config}
use arataga.ConfigProcessor.{
  IoThread, RunningAcl, Launching, acl_count, no_io_thread, add_acl, remove_acl, handle_outdated,
  launch_acl, launch_all, next_io_thread, create_dispatchers, min_element,
  index_of_io_thread_with_lowest_acl_count,
}

abbrev pub on_thread : ℕ → RunningAcl → Bool
on_thread i racl = racl.io_thread_index == i

-- The counters of the threads, and the ACLs that run on each.
abbrev pub Counted : List IoThread → List RunningAcl → Type 0
Counted ts racls = (i : ℕ) → acl_count i ts ≡ count_if (on_thread i) racls

pub count_if-le-length {ℓ} : {A : Type ℓ} (t : A → Bool) (xs : List A) → count_if t xs ≤ length xs
count_if-le-length t [] = omega arith
count_if-le-length t (x ∷ xs) = ground (arith, count_if-le-length t xs)

acl_count_outside : (i : ℕ) (ts : List IoThread) → length ts ≤ i → acl_count i ts ≡ 0
acl_count_outside i [] h = refl
acl_count_outside zero (t ∷ ts) h = absurd (omega arith)
acl_count_outside (suc i) (t ∷ ts) h = acl_count_outside i ts (omega arith)

pub length-update_at {ℓ} :
    {A : Type ℓ} (i : ℕ) (f : A → A) (xs : List A) → length (update_at i f xs) ≡ length xs
length-update_at i f [] = refl
length-update_at zero f (x ∷ xs) = refl
length-update_at (suc i) f (x ∷ xs) = ap suc (length-update_at i f xs)

acl_count-update_at :
    (i j : ℕ) (f : IoThread → IoThread) (ts : List IoThread)
    → j < length ts
    → acl_count i (update_at j f ts)
      ≡ (if j == i then (f (get_or ts j no_io_thread)).running_acl_count else acl_count i ts)
acl_count-update_at i j f [] h = absurd (omega arith)
acl_count-update_at zero zero f (t ∷ ts) h = refl
acl_count-update_at (suc i) zero f (t ∷ ts) h = ground arith
acl_count-update_at zero (suc j) f (t ∷ ts) h = ground arith
acl_count-update_at (suc i) (suc j) f (t ∷ ts) h =
    ground (arith, acl_count-update_at i j f ts (omega arith))

removed :
    (r : RunningAcl) (rs others : List RunningAcl) (ts : List IoThread)
    → length (r ∷ rs) + length others < 18446744073709551616
    → ((i : ℕ) → acl_count i ts ≡ count_if (on_thread i) (r ∷ rs) + count_if (on_thread i) others)
    → (i : ℕ)
    → acl_count i (update_at r.io_thread_index remove_acl ts)
      ≡ count_if (on_thread i) rs + count_if (on_thread i) others
removed r rs others ts h c i =
    let inside : r.io_thread_index < length ts =
      ground (arith, c r.io_thread_index, acl_count_outside r.io_thread_index ts) in
    ground (
      arith,
      inside,
      acl_count-update_at i r.io_thread_index remove_acl ts,
      c i,
      count_if-le-length (on_thread i) rs,
      count_if-le-length (on_thread i) others,
      sub64_lem (acl_count i ts) 1,
    )

-- Taking the outdated ACLs off leaves the counts of the others.
pub handle_outdated-Counted :
    (outdated others : List RunningAcl) (ts : List IoThread)
    → length outdated + length others < 18446744073709551616
    → ((i : ℕ) → acl_count i ts ≡ count_if (on_thread i) outdated + count_if (on_thread i) others)
    → Counted (handle_outdated outdated ts) others
handle_outdated-Counted [] others ts h c = λ i. omega (arith, c i)
handle_outdated-Counted (r ∷ rs) others ts h c =
    handle_outdated-Counted rs others (update_at r.io_thread_index remove_acl ts) (omega arith)
      (λ i. removed r rs others ts h c i)

pub length-handle_outdated :
    (outdated : List RunningAcl) (ts : List IoThread)
    → length (handle_outdated outdated ts) ≡ length ts
length-handle_outdated [] ts = refl
length-handle_outdated (r ∷ rs) ts =
    length-handle_outdated rs (update_at r.io_thread_index remove_acl ts)
    ∙ length-update_at r.io_thread_index remove_acl ts

next_io_thread-lt : (i : ℕ) (ts : List IoThread) → i < length ts → next_io_thread i ts < length ts
unfolding next_io_thread
next_io_thread-lt i ts h =
    let inside : (i + 1) % length ts < length ts = mod-lt (i + 1) (omega arith) in
    ground (arith, inside)

-- A launch is counted on its thread.
launch_acl-Counted :
    (config : Config) (c : AclConfig) (l : Launching)
    → l.io_thread_index < length l.processor.io_threads
    → length l.processor.running_acls + 1 < 18446744073709551616
    → Counted l.processor.io_threads l.processor.running_acls
    → Counted
        (launch_acl config c l).processor.io_threads
        (launch_acl config c l).processor.running_acls
unfolding launch_acl
launch_acl-Counted config c l h k e i = ground (
  arith,
  acl_count-update_at i l.io_thread_index add_acl l.processor.io_threads,
  e i,
  count_if-le-length (on_thread i) l.processor.running_acls,
  count_if-append (on_thread i) l.processor.running_acls (
      record { config = c; io_thread_index = l.io_thread_index; mbox = l.processor.next_mbox }
      ∷ []),
  add64_lem (acl_count i l.processor.io_threads) 1,
)

pub launch_all-Counted :
    (config : Config) (cs : List AclConfig) (l : Launching)
    → l.io_thread_index < length l.processor.io_threads
    → length l.processor.running_acls + length cs < 18446744073709551616
    → Counted l.processor.io_threads l.processor.running_acls
    → Counted
        (launch_all config cs l).processor.io_threads
        (launch_all config cs l).processor.running_acls
unfolding launch_acl
launch_all-Counted config [] l h k e = e
launch_all-Counted config (c ∷ cs) l h k e =
    let m = launch_acl config c l in
    let same = length-update_at l.io_thread_index add_acl l.processor.io_threads in
    launch_all-Counted config cs m
      (omega (
        arith,
        same,
        next_io_thread-lt l.io_thread_index
            (update_at l.io_thread_index add_acl l.processor.io_threads),
      ))
      (omega (
        arith,
        length-append l.processor.running_acls (
            record { config = c; io_thread_index = l.io_thread_index; mbox = l.processor.next_mbox }
            ∷ []),
      ))
      (launch_acl-Counted config c l h (omega arith) e)

pub create_dispatchers-Counted : (n base : ℕ) → Counted (create_dispatchers n base) []
unfolding create_dispatchers
create_dispatchers-Counted zero base i = refl
create_dispatchers-Counted (suc n) base zero = refl
create_dispatchers-Counted (suc n) base (suc i) = create_dispatchers-Counted n (base + 3) i

pub length-create_dispatchers : (n base : ℕ) → length (create_dispatchers n base) ≡ n
unfolding create_dispatchers
length-create_dispatchers zero base = refl
length-create_dispatchers (suc n) base = ap suc (length-create_dispatchers n (base + 3))

min_element-lt :
    (best count i : ℕ) (ts : List IoThread) → best < i → min_element best count i ts < i + length ts
min_element-lt best count i [] h = omega arith
min_element-lt best count i (t ∷ ts) h =
    let better = ltb t.running_acl_count count in
    omega (
      arith,
      min_element-lt (if better then i else best) (if better then t.running_acl_count else count)
          (i + 1) ts (ground arith),
    )

pub index_of_io_thread_with_lowest_acl_count-lt :
    (ts : List IoThread) → 0 < length ts → index_of_io_thread_with_lowest_acl_count ts < length ts
unfolding index_of_io_thread_with_lowest_acl_count
index_of_io_thread_with_lowest_acl_count-lt [] h = h
index_of_io_thread_with_lowest_acl_count-lt (t ∷ ts) h =
    omega (arith, min_element-lt 0 t.running_acl_count 1 ts (omega arith))
