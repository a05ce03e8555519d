-- ===== src/Proc/Life/Slots.antt =====
-- The slots of the process table: allocation, `kill`, `wakeup1`, and what a new process inherits.
use computer_organization_an.Common.{
  ℕ, suc, ◌≡◌, refl, ap, inl, inr, true, false, ◌&&◌, Option, none, some, List, [], ◌∷◌, arith,
  ◌==◌, Bool-cases, get_elem?, set, All, take, eq→==, ◌++◌,
}
use computer_organization_an.Proc.{
  unused, sleeping, runnable, embryo, zombie, running, Chan, slot, nowhere, address, Proc,
  ProcState, is, chan_eq,
}
use computer_organization_an.Proc.Life.{new_proc, wake, wakeup1, sleep, struck, kill}

awake : (c : Chan) (q : Proc) → (is (wake c q).state sleeping && chan_eq (wake c q).chan c) ≡ false
unfolding wake
awake c q = elim (Bool-cases (is q.state sleeping && chan_eq q.chan c)) [
  | inl e ↦ rw e
  | inr e ↦ rw e e
]

chan_eq_refl : (c : Chan) → chan_eq c c ≡ true
chan_eq_refl nowhere = refl
chan_eq_refl (slot i) = eq→== i i refl
chan_eq_refl (address a) = eq→== a a refl

-- After `wakeup1` nobody sleeps on the channel.
pub wakeup1-none_asleep :
    (c : Chan) (ps : List Proc)
    → All (λ q. (is q.state sleeping && chan_eq q.chan c) ≡ false) (wakeup1 c ps)
unfolding wakeup1
wakeup1-none_asleep c [] = tt
wakeup1-none_asleep c (q ∷ ps) = (awake c q, wakeup1-none_asleep c ps)

-- A process goes to sleep on a channel and a wakeup on that channel comes: it is runnable again,
-- otherwise as it was when it went to sleep. No wakeup is lost once `sleep` has written the slot.
pub wake-sleep :
    (c : Chan) (p : Proc) → wake c (sleep c p) ≡ record p { chan = c; state = runnable }
unfolding wake sleep
wake-sleep c p = rw (chan_eq_refl c)

unused_awake : (st : ProcState) → is st unused ≡ true → is st sleeping ≡ false
unused_awake unused h = refl
unused_awake embryo h = absurd (cc)
unused_awake sleeping h = absurd (cc)
unused_awake runnable h = absurd (cc)
unused_awake running h = absurd (cc)
unused_awake zombie h = absurd (cc)

-- The outcomes of `kill`.
abbrev pub Killed : ℕ → List Proc → Option (List Proc) → Type 0
Killed pid ps none = All (λ p. (p.pid == pid) ≡ false) ps
Killed pid ps (some ps') =
    (i : ℕ) × (p p' : Proc) × (get_elem? ps i ≡ some p)
    × (ps' ≡ set ps i p')
    × (p'.pid ≡ pid)
    × (p'.killed ≡ true)
    × (is p'.state sleeping ≡ false)
    × All (λ q. (q.pid == pid) ≡ false) (take i ps)

kill-cons :
    (pid : ℕ) (p : Proc) (ps : List Proc) (r : Option (List Proc))
    → (p.pid == pid) ≡ false
    → Killed pid ps r
    → Killed pid (p ∷ ps) (elim r [ none ↦ none | some ps' ↦ some (p ∷ ps') ])
kill-cons pid p ps none e k = (e, k)
kill-cons pid p ps (some ps') e (i, q, q', at, to, a, b, c, d) =
    (suc i, q, q', at, ap (λ t. p ∷ t) to, a, b, c, (e, d))

struck_awake : (p : Proc) → is (struck p).state sleeping ≡ false
unfolding struck
struck_awake p = elim (Bool-cases (is p.state sleeping)) [ inl e ↦ rw e | inr e ↦ rw e e ]

struck_unused : (p : Proc) → is p.state unused ≡ true → is (struck p).state unused ≡ true
unfolding struck
struck_unused p h = let quiet : is p.state sleeping ≡ false = unused_awake p.state h in rw quiet h

-- Where `kill` finds the pid it marks the first process that has it, takes it out of its sleep, and
-- leaves all others alone; the result -1 means that no slot has the pid.
pub kill-Killed : (pid : ℕ) (ps : List Proc) → Killed pid ps (kill pid ps)
unfolding kill struck
kill-Killed pid [] = tt
kill-Killed pid (p ∷ ps) = elim (Bool-cases (p.pid == pid)) [
  | inl e ↦ rw e (0, p, struck p, refl, refl, ground arith, refl, struck_awake p, tt)
  | inr e ↦ rw e (kill-cons pid p ps (kill pid ps) e (kill-Killed pid ps))
]

killed-new_proc : (pid : ℕ) (p : Proc) → (new_proc pid (struck p)).killed ≡ true
unfolding new_proc struck
killed-new_proc pid p = refl

-- A slot that is not in use has pid 0, so `kill(0)` can hit it: it reports success and leaves the
-- mark `killed` in the slot, and the process that is later created there starts out killed.
pub kill-zero_unused :
    (front back : List Proc) (p : Proc) (pid : ℕ)
    → All (λ q. (q.pid == 0) ≡ false) front
    → p.pid ≡ 0
    → is p.state unused ≡ true
    → (p' : Proc) × (kill 0 (front ++ p ∷ back) ≡ some (front ++ p' ∷ back))
      × (is p'.state unused ≡ true)
      × ((new_proc pid p').killed ≡ true)
unfolding kill
kill-zero_unused [] back p pid f z u =
    (struck p, rw (eq→== p.pid 0 z), struck_unused p u, killed-new_proc pid p)
kill-zero_unused (q ∷ front) back p pid f z u =
    let (p', e, free, dead) = kill-zero_unused front back p pid f.1 z u in
    (p', rw (f.0, e), free, dead)
