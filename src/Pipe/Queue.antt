-- ===== src/Pipe/Queue.antt =====
-- A pipe holds a queue of at most 512 bytes, also when its counters have wrapped around.
use computer_organization_an.Common.{
  ℕ, zero, suc, ◌+◌, ◌%◌, ◌≤◌, ◌<◌, ◌≡◌, ◌≢◌, refl, ap, ◌∙◌, true, false, List, [], ◌∷◌, ◌++◌,
  arith, word, add32, sub32, length, get_or, set, length-set, get_or-set_self, get_or-set_ne,
}
use computer_organization_an.Pipe.{Pipe, pipe_size, full, empty, put, get}

-- The `n` bytes from counter `r` on.
abbrev pub window : List ℕ → ℕ → ℕ → List ℕ
window buf r zero = []
window buf r (suc n) = get_or buf (r % pipe_size) 0 ∷ window buf (add32 r 1) n

abbrev pub size : Pipe → ℕ
size p = sub32 p.nwrite p.nread

-- What the pipe holds, oldest first.
abbrev pub contents : Pipe → List ℕ
contents p = window p.buf p.nread (size p)

pub record IsValid (p : Pipe) : Type 0 where
  pub bytes : length p.buf ≡ pipe_size
  pub nread : p.nread < word
  pub nwrite : p.nwrite < word
  pub fits : size p ≤ pipe_size

pub length-window : (buf : List ℕ) (r n : ℕ) → length (window buf r n) ≡ n
length-window buf r zero = refl
length-window buf r (suc n) = ap suc (length-window buf (add32 r 1) n)

window-set :
    (buf : List ℕ) (r n i c : ℕ)
    → length buf ≡ pipe_size
    → r < word
    → n < pipe_size
    → i ≡ (r + n) % pipe_size
    → window (set buf i c) r (suc n) ≡ window buf r n ++ c ∷ []
window-set buf r zero i c b h l e =
    let e' : i ≡ r % pipe_size = omega arith in
    rw (e', get_or-set_self buf (r % pipe_size) c 0 (omega arith))
window-set buf r (suc n) i c b h l e =
    let far : i ≢ r % pipe_size = omega arith in
    rw (get_or-set_ne buf c 0 far) (
      ap (λ t. get_or buf (r % pipe_size) 0 ∷ t)
        (window-set buf (add32 r 1) n i c b (omega arith) (omega arith) (omega arith)))

window-add :
    (buf : List ℕ) (r m n : ℕ)
    → m ≡ suc n
    → window buf r m ≡ get_or buf (r % pipe_size) 0 ∷ window buf (add32 r 1) n
window-add buf r m n e = rw e

full-size : {p : Pipe} → IsValid p → full p ≡ false → size p < pipe_size
unfolding full
full-size v h = ground (arith, v)

empty-size : {p : Pipe} → IsValid p → empty p ≡ false → 0 < size p
unfolding empty
empty-size v h = ground (arith, v)

-- Writing a byte into a pipe with room appends it to the queue.
pub put-append :
    {p : Pipe} (c : ℕ)
    → IsValid p
    → full p ≡ false
    → IsValid (put p c) × (contents (put p c) ≡ contents p ++ c ∷ [])
unfolding put
put-append {p} c v h =
    let room = full-size v h in
    let grown : sub32 (add32 p.nwrite 1) p.nread ≡ suc (size p) = omega (arith, v, room) in
    (
      record {
        bytes = length-set p.buf (p.nwrite % pipe_size) c ∙ v.bytes;
        nread = v.nread;
        nwrite = omega arith;
        fits = omega (arith, grown, room);
      },
      rw grown (
          window-set p.buf p.nread (size p) (p.nwrite % pipe_size) c v.bytes v.nread room
            (omega (arith, v))),
    )

pub size-put : {p : Pipe} (c : ℕ) → IsValid p → full p ≡ false → size (put p c) ≡ suc (size p)
unfolding put
size-put {p} c v h = let room = full-size v h in omega (arith, v, room)

-- Reading a byte from a pipe that is not empty takes the oldest of the queue.
pub get-cons :
    {p : Pipe}
    → IsValid p
    → empty p ≡ false
    → IsValid (get p).1 × (contents p ≡ (get p).0 ∷ contents (get p).1)
unfolding get
get-cons {p} v h =
    let some_byte = empty-size v h in
    let shrunk : size p ≡ suc (sub32 p.nwrite (add32 p.nread 1)) = omega (arith, v, some_byte) in
    (
      record {
        bytes = v.bytes;
        nread = omega arith;
        nwrite = v.nwrite;
        fits = omega (arith, shrunk, v);
      },
      window-add p.buf p.nread (size p) (sub32 p.nwrite (add32 p.nread 1)) shrunk,
    )

pub size-empty : {p : Pipe} → IsValid p → empty p ≡ true → size p ≡ 0
unfolding empty
size-empty {p} v h = ground (arith, v)

-- An empty pipe holds nothing.
pub contents-empty : {p : Pipe} → IsValid p → empty p ≡ true → contents p ≡ []
contents-empty {p} v h = rw (size-empty v h)
