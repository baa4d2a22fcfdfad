-- ===== src/NetProxy/Relay/Flow.antt =====
-- crates/bubbler-net-proxy/src/relay.rs: what passes through a direction is what came in, in order.
use bubbler.Prelude.{
  ℕ, zero, suc, ◌+◌, ◌≡◌, ◌≤◌, refl, sym, ap, ◌∙◌, true, false, ◌⊎◌, inl, inr, List, [], ◌∷◌, ◌++◌,
  append-nil, append_assoc, length, take, drop, ◌||◌, arith, Bool-cases, take-append-drop, drop_all,
  drop-drop, length-drop, lt→ltb,
}
use bubbler.NetProxy.Relay.{
  done_with, failed, ErrorKind, Dir, default, pending, done, wants_read, wants_write, close_sink,
  would_wait, read_from, give_up, waiting, write_to, chunk,
}

-- One move of a direction, with what it read from the source and what its sink took. A transfer is
-- made where it is wanted, and the operating system answers a read with at most a buffer of bytes
-- and a write with at most what it was given.
pub data Move : Dir → Dir → List ℕ → List ℕ → Type 0 where
  rest : {dir : Dir} → Move dir dir [] []
  close : {dir : Dir} → Move dir (close_sink dir) [] []
  read_bytes :
      {dir : Dir} (bytes : List ℕ)
      → wants_read dir ≡ true
      → length bytes ≤ chunk
      → Move dir (read_from dir (done_with bytes)).0 bytes []
  read_failed :
      {dir : Dir} (kind : ErrorKind)
      → wants_read dir ≡ true
      → Move dir (read_from dir (failed kind)).0 [] []
  write_bytes :
      {dir : Dir} (n : ℕ)
      → wants_write dir ≡ true
      → n ≤ length (waiting dir)
      → Move dir (write_to dir (done_with n)).0 [] (take n (waiting dir))
  write_failed :
      {dir : Dir} (kind : ErrorKind)
      → wants_write dir ≡ true
      → Move dir (write_to dir (failed kind)).0 [] []

-- Moves from the start of a tunnel, with all that was read and all that was taken.
pub data Run : Dir → List ℕ → List ℕ → Type 0 where
  start : Run default [] []
  more :
      {dir dir' : Dir} {received delivered got sent : List ℕ}
      → Run dir received delivered
      → Move dir dir' got sent
      → Run dir' (received ++ got) (delivered ++ sent)

-- What holds after any moves: the buffer is bounded, the cursor stays in it, and what was received is
-- what was delivered with what still waits, or what a broken sink lost.
pub record IsFlow (dir : Dir) (received delivered : List ℕ) : Type 0 where
  pub lost : List ℕ
  pub account : received ≡ delivered ++ (waiting dir ++ lost)
  pub bounded : length dir.buf ≤ chunk
  pub inside : dir.off ≤ length dir.buf
  pub intact : (lost ≡ []) ⊎ (dir.sink_done ≡ true)

-- Nothing waits in a direction that wants to read, and its sink is open.
waiting_none : (dir : Dir) → pending dir ≡ false → waiting dir ≡ []
unfolding pending waiting
waiting_none dir h = drop_all dir.off dir.buf (ground arith)

wants_read_inv : (dir : Dir) → wants_read dir ≡ true → (waiting dir ≡ []) × (dir.sink_done ≡ false)
unfolding wants_read
wants_read_inv dir h = (waiting_none dir (ground arith), ground arith)

-- Nothing moves and the sink stays as it is, or is shut: the flow stays.
rest-IsFlow :
    (dir dir' : Dir) (received delivered : List ℕ)
    → IsFlow dir received delivered
    → dir'.buf ≡ dir.buf
    → dir'.off ≡ dir.off
    → (dir.sink_done ≡ true → dir'.sink_done ≡ true)
    → IsFlow dir' (received ++ []) (delivered ++ [])
unfolding waiting
rest-IsFlow dir dir' received delivered f b o s = record {
  lost = f.lost;
  account = rw (append-nil, append-nil, b, o) f.account;
  bounded = rw (b) f.bounded;
  inside = rw (b, o) f.inside;
  intact = elim f.intact [ inl e ↦ inl e | inr e ↦ inr (s e) ];
}

-- A sink that is given up loses what waited for it.
give_up-IsFlow :
    (dir : Dir) (received delivered : List ℕ)
    → IsFlow dir received delivered
    → IsFlow (give_up dir) (received ++ []) (delivered ++ [])
unfolding give_up waiting
give_up-IsFlow dir received delivered f = record {
  lost = waiting dir ++ f.lost;
  account = rw (append-nil, append-nil, drop_all (length dir.buf) dir.buf (omega arith)) f.account;
  bounded = f.bounded;
  inside = omega arith;
  intact = inr refl;
}

-- A read replaces a buffer in which nothing waits.
read-IsFlow :
    (dir : Dir) (received delivered bytes : List ℕ)
    → IsFlow dir received delivered
    → wants_read dir ≡ true
    → length bytes ≤ chunk
    → IsFlow (record dir { buf = bytes; off = 0 }) (received ++ bytes) (delivered ++ [])
unfolding waiting
read-IsFlow dir received delivered bytes f wants fits =
    let (idle, opened) = wants_read_inv dir wants in
    let whole : f.lost ≡ [] = elim f.intact [ inl e ↦ e | inr e ↦ cc ] in
    let same : received ≡ delivered = rw (f.account, idle, whole) (append-nil delivered) in
    record {
      lost = [];
      account = rw (append-nil, append-nil, same);
      bounded = fits;
      inside = omega arith;
      intact = inl refl;
    }

-- A write moves the cursor over what the sink has taken.
write-IsFlow :
    (dir : Dir) (received delivered : List ℕ) (n : ℕ)
    → IsFlow dir received delivered
    → n ≤ length (waiting dir)
    → IsFlow (record dir { off = dir.off + n }) (received ++ []) (delivered ++ take n (waiting dir))
unfolding waiting
write-IsFlow dir received delivered n f fits = record {
  lost = f.lost;
  account =
      rw (append-nil, append_assoc, drop-drop dir.off n (dir.off + n) dir.buf refl)
        (f.account ∙ ap (λ w. delivered ++ w) taken);
  bounded = f.bounded;
  inside = omega (arith, length-drop dir.off dir.buf, f.inside);
  intact = f.intact;
}
  where
    taken : waiting dir ++ f.lost ≡ take n (waiting dir) ++ (drop n (waiting dir) ++ f.lost)
    taken =
        ap (λ w. w ++ f.lost) (sym (take-append-drop n (waiting dir)))
        ∙ append_assoc (take n (waiting dir)) (drop n (waiting dir)) f.lost

Move-IsFlow :
    {dir dir' : Dir} {received delivered got sent : List ℕ}
    → IsFlow dir received delivered
    → Move dir dir' got sent
    → IsFlow dir' (received ++ got) (delivered ++ sent)
unfolding close_sink read_from write_to give_up waiting
Move-IsFlow f rest = rest-IsFlow _ _ _ _ f refl refl (λ e. e)
Move-IsFlow {dir} f close =
    rest-IsFlow _ _ _ _ f (ground arith) (ground arith) (λ e. ground (arith, e))
Move-IsFlow {dir} f (read_bytes [] wants fits) = rest-IsFlow _ _ _ _ f refl refl (λ e. e)
Move-IsFlow {dir} f (read_bytes (b ∷ bs) wants fits) =
    rw (lt→ltb 0 (suc (length bs)) (omega arith)) (read-IsFlow _ _ _ (b ∷ bs) f wants fits)
Move-IsFlow {dir} f (read_failed kind wants) = elim (Bool-cases (would_wait kind)) [
  | inl e ↦ rw (e) (rest-IsFlow _ _ _ _ f refl refl (λ e. e))
  | inr e ↦ rw (e) (rest-IsFlow _ _ _ _ f refl refl (λ e. e))
]
Move-IsFlow {dir} f (write_bytes zero wants fits) = give_up-IsFlow _ _ _ f
Move-IsFlow {dir} f (write_bytes (suc n) wants fits) =
    rw (lt→ltb 0 (suc n) (omega arith)) (write-IsFlow _ _ _ (suc n) f fits)
Move-IsFlow {dir} f (write_failed kind wants) = elim (Bool-cases (would_wait kind)) [
  | inl e ↦ rw (e) (rest-IsFlow _ _ _ _ f refl refl (λ e. e))
  | inr e ↦ rw (e) (give_up-IsFlow _ _ _ f)
]

default-IsFlow : IsFlow default [] []
unfolding default waiting
default-IsFlow = record {
  lost = [];
  account = refl;
  bounded = omega arith;
  inside = omega arith;
  intact = inl refl;
}

-- Whatever the peers do, a direction holds at most one buffer, and the bytes that its source gave are
-- those that its sink took, in order, then those that wait in the buffer, then those lost; and none
-- are lost unless the direction is over.
pub Run-IsFlow :
    {dir : Dir} {received delivered : List ℕ}
    → Run dir received delivered
    → IsFlow dir received delivered
Run-IsFlow start = default-IsFlow
Run-IsFlow (more run move) = Move-IsFlow (Run-IsFlow run) move

-- Where `close_sink` shuts the write end, the sink has taken every byte that the source gave.
pub close_sink_complete :
    {dir : Dir} {received delivered : List ℕ}
    → Run dir received delivered
    → dir.sink_done ≡ false
    → (close_sink dir).sink_done ≡ true
    → received ≡ delivered
unfolding close_sink
close_sink_complete {dir} {received} {delivered} run opened shut =
    let f = Run-IsFlow run in
    let empty : pending dir ≡ false = ground arith in
    let whole : f.lost ≡ [] = elim f.intact [ inl e ↦ e | inr e ↦ cc ] in
    rw (f.account, waiting_none dir empty, whole) (append-nil delivered)

-- A direction that is not over waits for its source or for its sink once the sink is looked after.
pub wants-close_sink :
    (dir : Dir)
    → (done (close_sink dir) || (wants_read (close_sink dir) || wants_write (close_sink dir)))
      ≡ true
unfolding close_sink done wants_read wants_write
wants-close_sink dir = ground arith
