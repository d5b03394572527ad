-- ===== src/Circular.antt =====
-- An array that is used as a circle, as runloop/functor_list.c and common/queue.c use one: the items
-- of a queue stand at `h`, `(h + 1) % cap`, and so on.
use c_http.Prelude.{
  ℕ, suc, ◌+◌, ◌%◌, ◌<◌, ◌≤◌, ◌≡◌, ◌≢◌, List, [], ◌∷◌, ◌++◌, some, arith, get_elem?, set, length,
  get_elem?-set_self, get_elem?-set_ne, ap, sym, ◌∙◌,
}
use Prim.Native.Nat.{◌-◌}
use native.Mathlib.Decide.{dec_lt}
use native.Mathlib.Nat.{mod-eq_of_lt, mod-eq-sub-mod, mod-add-mod, add-zero}

-- `n` steps on from a place inside the circle, with at most one wrap.
pub mod-wrap : (a cap : ℕ) → a < cap + cap → (a < cap → a % cap ≡ a) × (cap ≤ a → a % cap ≡ a - cap)
mod-wrap a cap h = (
  λ lt. mod-eq_of_lt lt,
  λ le. omega (
    arith,
    mod-eq-sub-mod {n = a} {m = cap} le,
    mod-eq_of_lt {n = a - cap} {m = cap} (omega arith),
  ),
)

-- Fewer than `cap` steps do not lead back to the start.
pub add-mod-ne : (cap h k : ℕ) → h < cap → suc k < cap → (h + suc k) % cap ≢ h
add-mod-ne cap h k hh hk e = elim (dec_lt (h + suc k) cap) [
  | yes p ↦ omega (arith, (mod-wrap (h + suc k) cap (omega arith)).0 p)
  | no p ↦ omega (arith, (mod-wrap (h + suc k) cap (omega arith)).1 (omega arith))
]

-- One step and then `k` more are `k + 1` steps.
pub step-mod : (cap h k : ℕ) → ((h + 1) % cap + k) % cap ≡ (h + suc k) % cap
step-mod cap h k = rw mod-add-mod (ap (λ (n : ℕ). n % cap) (omega arith))

module _ {ℓ} {A : Type ℓ} where
  -- The slots from `h` on hold the items of the list, in order.
  abbrev pub Holds : List A → ℕ → ℕ → List A → Type ℓ
  Holds buf cap h [] = Unit
  Holds buf cap h (x ∷ q) = (get_elem? buf h ≡ some x) × Holds buf cap ((h + 1) % cap) q

  -- A write to a slot that is not in use changes no item.
  pub Holds-set :
      (buf : List A) (cap h i : ℕ) (v : A) (q : List A)
      → h < cap
      → length q < cap
      → ((k : ℕ) → k < length q → (h + k) % cap ≢ i)
      → Holds buf cap h q
      → Holds (set buf i v) cap h q
  Holds-set buf cap h i v [] hh hq free held = tt
  Holds-set buf cap h i v (x ∷ q) hh hq free held = (
    get_elem?-set_ne buf v (λ e. free 0 (omega arith) (rw (add-zero, mod-eq_of_lt hh) (sym e)))
        ∙ held.0,
    Holds-set buf cap ((h + 1) % cap) i v q (grind arith) (omega arith)
        (λ k hk. rw step-mod (free (suc k) (omega arith))) held.1,
  )

  -- An item in the slot after the last one is at the end of the queue.
  pub Holds-snoc :
      (buf : List A) (cap h : ℕ) (q : List A) (x : A)
      → Holds buf cap h q
      → get_elem? buf ((h + length q) % cap) ≡ some x
      → h < cap
      → Holds buf cap h (q ++ x ∷ [])
  Holds-snoc buf cap h [] x held last hh =
      (rw (← last) (ap (get_elem? buf) (sym (rw add-zero (mod-eq_of_lt hh)))), tt)
  Holds-snoc buf cap h (y ∷ q) x held last hh =
      (held.0, Holds-snoc buf cap ((h + 1) % cap) q x held.1 (rw step-mod last) (grind arith))

-- How far `t + n` is from `t`, going round.
pub circle_distance : (t n cap : ℕ) → t < cap → n < cap → ((t + n) % cap + cap - t) % cap ≡ n
circle_distance t n cap ht hn = elim (dec_lt (t + n) cap) [
  | yes p ↦
      rw (mod-eq_of_lt p)
        (omega (arith, (mod-wrap (t + n + cap - t) cap (omega arith)).1 (omega arith)))
  | no p ↦
      rw ((mod-wrap (t + n) cap (omega arith)).1 (omega arith))
        (omega (arith, (mod-wrap (t + n - cap + cap - t) cap (omega arith)).0 (omega arith)))
]

-- Two places fewer than `cap` steps apart differ.
slots-ne : (cap h j k : ℕ) → j < k → k < cap → (h + j) % cap ≢ (h + k) % cap
slots-ne cap h j k hjk hk e =
    add-mod-ne cap ((h + j) % cap) (k - j - 1) (grind arith) (omega arith)
      (rw mod-add-mod (ap (λ (n : ℕ). n % cap) (omega arith) ∙ sym e))

-- A new item goes into the slot after the last one.
pub Holds-set_snoc {ℓ} :
    {A : Type ℓ} (buf : List A) (cap h : ℕ) (q : List A) (x : A)
    → h < cap
    → length q < cap
    → cap ≤ length buf
    → Holds buf cap h q
    → Holds (set buf ((h + length q) % cap) x) cap h (q ++ x ∷ [])
Holds-set_snoc buf cap h q x hh hq hb held =
    Holds-snoc (set buf ((h + length q) % cap) x) cap h q x
      (Holds-set buf cap h ((h + length q) % cap) x q hh hq
        (λ k hk. slots-ne cap h k (length q) hk hq) held)
      (get_elem?-set_self buf ((h + length q) % cap) x (grind arith)) hh
