-- ===== src/AtomicRef/Owned.antt =====
-- No call leaks a reference or gives one up that it does not own (src/cereggii/atomic_ref.c).
use cereggii.Common.{ℕ, ◌<◌, Bool, true, false, arith}
use native.Mathlib.Decide.{ℕ_discrete, dec_lt}
use cereggii.AtomicRef.{
  Shared, incref, RefCall, Progress, IsCounted, GetAccess, SwapAccess, ExchangeAccess, Access,
  Alone,
}

-- The calls that ended.
abbrev pub IsFinished : Progress → Type 0
IsFinished (Progress.returned r) = Unit
IsFinished (Progress.answered done) = Unit
IsFinished (Progress.start call) = ⊥
IsFinished (Progress.loaded r) = ⊥
IsFinished (Progress.swapping expected desired) = ⊥
IsFinished (Progress.exchanging desired) = ⊥
IsFinished (Progress.swapped expected desired done) = ⊥

abbrev pub Finishes : Progress → Shared → Type 0
Finishes p s = (p' : Progress) × (s' : Shared) × IsFinished p' × Alone p s p' s'

alive : (p : Progress) (s : Shared) → IsCounted p s → 0 < s.count s.reference
alive p s (others, counts) = ground (arith, counts s.reference)

loaded_now : (s : Shared) → 0 < s.count s.reference → Finishes (Progress.loaded s.reference) s
loaded_now s up =
    (_, _, tt, Alone.next (Access.of_get (GetAccess.try_incref s.reference s up)) (Alone.stop _ _))

swapped_now : (e d : ℕ) (done : Bool) (s : Shared) → Finishes (Progress.swapped e d done) s
swapped_now e d true s =
    (_, _, tt, Alone.next (Access.of_swap (SwapAccess.decref_expected e d s)) (Alone.stop _ _))
swapped_now e d false s =
    (_, _, tt, Alone.next (Access.of_swap (SwapAccess.decref_desired e d s)) (Alone.stop _ _))

swapping_now : (e d : ℕ) (s : Shared) → Finishes (Progress.swapping e d) s
swapping_now e d s = elim (ℕ_discrete s.reference e) [
  | yes same ↦
      let (p', s', done, rest) = swapped_now e d true (record s { reference = d }) in
      (p', s', done, Alone.next (Access.of_swap (SwapAccess.swap e d s same)) rest)
  | no differ ↦
      let (p', s', done, rest) = swapped_now e d false s in
      (p', s', done, Alone.next (Access.of_swap (SwapAccess.refuse e d s differ)) rest)
]

-- From each state of a call with exact counts, also amid the interference of others, the call ends if it runs on alone.
pub Finishes-alone : (p : Progress) (s : Shared) → IsCounted p s → Finishes p s
Finishes-alone (Progress.start RefCall.get) s c =
    let (p', s', done, rest) = loaded_now s (alive (Progress.start RefCall.get) s c) in
    (p', s', done, Alone.next (Access.of_get (GetAccess.load s)) rest)
Finishes-alone (Progress.start (RefCall.compare_and_set e d)) s c =
    let (p', s', done, rest) = swapping_now e d (incref d s) in
    (p', s', done, Alone.next (Access.of_swap (SwapAccess.incref_desired e d s)) rest)
Finishes-alone (Progress.start (RefCall.get_and_set d)) s c = (
  _,
  _,
  tt,
  Alone.next (Access.of_exchange (ExchangeAccess.incref_new d s))
      (Alone.next (Access.of_exchange (ExchangeAccess.exchange d (incref d s))) (Alone.stop _ _)),
)
Finishes-alone (Progress.loaded r) s c = elim (dec_lt 0 (s.count r)) [
  | yes up ↦ (_, _, tt, Alone.next (Access.of_get (GetAccess.try_incref r s up)) (Alone.stop _ _))
  | no down ↦
      let (p', s', done, rest) = loaded_now s (alive (Progress.loaded r) s c) in
      (p', s', done, Alone.next (Access.of_get (GetAccess.load_again r s (omega arith))) rest)
]
Finishes-alone (Progress.swapping e d) s c = swapping_now e d s
Finishes-alone (Progress.exchanging d) s c =
    (_, _, tt, Alone.next (Access.of_exchange (ExchangeAccess.exchange d s)) (Alone.stop _ _))
Finishes-alone (Progress.swapped e d done) s c = swapped_now e d done s
Finishes-alone (Progress.returned r) s c = (_, _, tt, Alone.stop _ _)
Finishes-alone (Progress.answered done) s c = (_, _, tt, Alone.stop _ _)
