-- ===== src/Pipe/Tests.antt =====
-- Pipes whose counters are about to wrap around.
use mathlib.Core.List.{append-nil}
use computer_organization_an.Common.{
  sym, Bool-cases, if◌then◌else◌, ℕ, ◌≡◌, refl, inl, inr, true, false, [], ◌∷◌, arith, replicate,
  length-replicate,
}
use computer_organization_an.Pipe.{Pipe, Round, returns, full, empty, put, get, pipewrite, piperead}
use computer_organization_an.Pipe.Queue.{IsValid, contents, put-append, get-cons}
use computer_organization_an.Pipe.Calls.{Drains, Wrote, pipewrite-Wrote}
use computer_organization_an.Pipe.Read.{Fills, Took, piperead-Took, piperead-pipewrite}

-- Nothing written yet, and the counters at their last value.
abbrev fresh : Pipe
fresh = record {
  buf = replicate 512 0;
  nread = 4294967295;
  nwrite = 4294967295;
  readopen = true;
  writeopen = true;
}

fresh-IsValid : IsValid fresh
fresh-IsValid = record {
  bytes = length-replicate {A = ℕ} 512 0;
  nread = omega arith;
  nwrite = omega arith;
  fits = omega arith;
}

fresh-empty : empty fresh ≡ true
unfolding empty
fresh-empty = refl

fresh-not_full : full fresh ≡ false
unfolding full
fresh-not_full = refl

-- 512 bytes written and none read.
abbrev crowded : Pipe
crowded = record fresh { nwrite = 511 }

crowded-IsValid : IsValid crowded
crowded-IsValid = record {
  bytes = length-replicate {A = ℕ} 512 0;
  nread = omega arith;
  nwrite = omega arith;
  fits = omega arith;
}

-- Another process reads one byte, if there is one.
abbrev one_read : Round
one_read p = (if empty p then p else (get p).1, false)

one_read-Drains : Drains one_read
one_read-Drains p v = elim (Bool-cases (empty p)) [
  | inl e ↦ rw e (v, ([], refl))
  | inr e ↦ let (v', first) = get-cons v e in rw e (v', ((get p).0 ∷ [], first))
]

-- Another process writes one byte, if there is room.
abbrev one_write : Round
one_write p = (if full p then p else put p 9, false)

one_write-Fills : Fills one_write
one_write-Fills p v = elim (Bool-cases (full p)) [
  | inl e ↦ rw e (v, ([], sym (append-nil (contents p))))
  | inr e ↦ let (v', last) = put-append 9 v e in rw e (v', (9 ∷ [], last))
]

pipewrite-Wrote_example :
    Wrote
      (contents crowded)
      (7 ∷ 8 ∷ [])
      2
      (pipewrite (7 ∷ 8 ∷ []) (one_read ∷ one_read ∷ []) crowded false)
pipewrite-Wrote_example =
    pipewrite-Wrote (7 ∷ 8 ∷ []) (one_read ∷ one_read ∷ []) crowded false
      (one_read-Drains, (one_read-Drains, tt)) crowded-IsValid

piperead-Took_example : Took (contents fresh) 3 (piperead 3 (one_write ∷ []) fresh false)
piperead-Took_example =
    piperead-Took 3 (one_write ∷ []) fresh false (one_write-Fills, tt) fresh-IsValid

piperead-pipewrite_example :
    (p' : Pipe) × (pipewrite (7 ∷ 8 ∷ []) [] fresh false ≡ returns 2 p')
    × ((p'' : Pipe) × (piperead 2 [] p' false ≡ returns (7 ∷ 8 ∷ []) p''))
piperead-pipewrite_example =
    piperead-pipewrite 7 (8 ∷ []) [] [] fresh false false fresh-IsValid fresh-empty (omega arith)
