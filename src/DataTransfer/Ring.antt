-- ===== src/DataTransfer/Ring.antt =====
-- arataga/acl_handler/handlers/data_transfer.cpp: the buffers of a direction as a ring.
use arataga.Prelude.{
  ℕ, zero, suc, ◌+◌, ◌-◌, ◌%◌, ◌≤◌, ◌<◌, ◌≡◌, ◌≢◌, ◌⊎◌, inl, inr, refl, sym, ap, ◌∙◌, List, [],
  ◌++◌, arith, subst, get_or, set, take, append-nil, append_assoc, get_or-set_ne,
}
use arataga.Prelude.Eq.{Bytes}
use native.Mathlib.Nat.{mod-lt, mod-eq_of_lt, mod-add-mod, mod-eq-sub-mod}
use arataga.DataTransfer.{IoBuffer, empty_buffer}

-- The bytes that a write of the buffer sends.
abbrev pub content : IoBuffer → Bytes
content b = take b.data_size b.data_read

abbrev pub content_at : List IoBuffer → ℕ → Bytes
content_at bufs i = content (get_or bufs i (empty_buffer 0))

-- The bytes of `count` buffers from `base` on, in a ring of `n`.
unfoldable pub window : ℕ → List IoBuffer → ℕ → ℕ → Bytes
window n bufs base zero = []
window n bufs base (suc count) = content_at bufs base ++ window n bufs ((base + 1) % n) count

-- A step of the base is a step of the offset.
pub shift_base : (n base k : ℕ) → ((base + 1) % n + k) % n ≡ (base + suc k) % n
shift_base n base k = mod-add-mod (base + 1) n k ∙ ap (λ x. x % n) {x = base + 1 + k} (omega arith)

below_or_not : (a n : ℕ) → (a < n) ⊎ (n ≤ a)
below_or_not a n = elim (Prim.Native.Nat.compare a n) [
  | Prim.Native.Nat.Ordering.lt ↦ ground arith
  | _ ↦ ground arith
]

pub offset_ne : (n base d : ℕ) → base < n → 0 < d → d < n → (base + d) % n ≢ base
offset_ne n base d b pos d_small e = elim (below_or_not (base + d) n) [
  | inl small ↦ omega (arith, mod-eq_of_lt {n = base + d} {m = n} small, e)
  | inr large ↦ omega (
    arith,
    mod-eq-sub-mod {n = base + d} {m = n} large,
    mod-eq_of_lt {n = base + d - n} {m = n} (omega arith),
    e,
  )
]

no_offset : (n base : ℕ) → base < n → base ≡ (base + 0) % n
no_offset n base h = omega (arith, mod-eq_of_lt {n = base + 0} {m = n} (omega arith))

pub window-snoc :
    (n : ℕ) (bufs : List IoBuffer) (base count : ℕ)
    → base < n
    → window n bufs base (suc count)
      ≡ window n bufs base count ++ content_at bufs ((base + count) % n)
unfolding window
window-snoc n bufs base zero h =
    append-nil (content_at bufs base) ∙ ap (content_at bufs) (no_offset n base h)
window-snoc n bufs base (suc k) h =
    ap (λ t. content_at bufs base ++ t)
      (window-snoc n bufs ((base + 1) % n) k (mod-lt (base + 1) (omega arith)))
    ∙ sym (
        append_assoc (content_at bufs base) (window n bufs ((base + 1) % n) k)
          (content_at bufs (((base + 1) % n + k) % n)))
    ∙ ap (λ i. (content_at bufs base ++ window n bufs ((base + 1) % n) k) ++ content_at bufs i)
        (shift_base n base k)

-- A change of a buffer outside the window leaves the window as it is.
pub window-set :
    (n : ℕ) (bufs : List IoBuffer) (base count d : ℕ) (b : IoBuffer)
    → base < n
    → count ≤ d
    → d < n
    → window n (set bufs ((base + d) % n) b) base count ≡ window n bufs base count
unfolding window
window-set n bufs base zero d b h within small = refl
window-set n bufs base (suc k) zero b h within small = absurd (omega arith)
window-set n bufs base (suc k) (suc d) b h within small =
    let head =
      get_or-set_ne bufs {i = (base + suc d) % n} {j = base} b (empty_buffer 0)
        (offset_ne n base (suc d) h (omega arith) small) in
    let tail =
      window-set n bufs ((base + 1) % n) k d b (mod-lt (base + 1) (omega arith)) (omega arith)
        (omega arith) in
    let moved =
      subst (λ i. window n (set bufs i b) ((base + 1) % n) k ≡ window n bufs ((base + 1) % n) k)
        (shift_base n base d) tail in
    rw (head, moved)
