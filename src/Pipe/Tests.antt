-- ===== src/Pipe/Tests.antt =====
-- Runs of the pipe at concrete inputs, and its theorems there.
use laboratorio_ramiro.Prelude.{
  List, [], arith, false, length, refl, replicate, true, ℕ, ◌++◌, ◌-◌, ◌^◌, ◌∷◌, ◌≡◌, ◌≤◌,
}
use laboratorio_ramiro.Pipe.{
  pipeclose, Pipe, pipesize, pipealloc, pipewrite, piperead, copy_out, put, advance,
}
use laboratorio_ramiro.Pipe.Ring.{IsValid, contents}
use laboratorio_ramiro.Pipe.Runs.{WriteRunOk, ReadRunOk, pipewrite_lem, piperead_lem}
use laboratorio_ramiro.Pipe.Stream.{
  Act, write, read, close, run, all_sent, all_received, pipe_is_fifo,
}

page : List ℕ
page = replicate 512 1

-- The write counter is about to wrap, and the ring is two bytes short of full.
wrapping : Pipe
unfolding page
wrapping = record {
  buf = page;
  nread = 2 ^ 32 - 511;
  nwrite = 2 ^ 32 - 1;
  readopen = true;
  writeopen = true;
}

length-page : length page ≡ pipesize
unfolding page
length-page = refl

wrapping-IsValid : IsValid wrapping
unfolding wrapping
wrapping-IsValid = record {
  storage = refl;
  nread_in = omega arith;
  nwrite_in = omega arith;
  room = omega arith;
}

-- Two of three bytes fit; the writer sleeps with the third.
pipewrite_lem_example :
    WriteRunOk wrapping false (7 ∷ 8 ∷ 9 ∷ []) (pipewrite wrapping false (7 ∷ 8 ∷ 9 ∷ []))
pipewrite_lem_example = pipewrite_lem wrapping false (7 ∷ 8 ∷ 9 ∷ []) wrapping-IsValid

piperead_lem_example : ReadRunOk wrapping false 3 (piperead wrapping false 3)
piperead_lem_example = piperead_lem wrapping false 3 wrapping-IsValid

abbrev history : List Act
history = write false (5 ∷ 6 ∷ []) ∷ read false 1 ∷ close true ∷ read false 9 ∷ []

pipe_is_fifo_example :
    let p = pipealloc page in
    (all_received p history ++ contents (run p history) ≡ all_sent p history)
    × (length (contents (run p history)) ≤ pipesize)
pipe_is_fifo_example = pipe_is_fifo page history length-page

history_received : all_received (pipealloc page) history ≡ 5 ∷ 6 ∷ []
unfolding run all_received pipealloc page pipewrite piperead copy_out put advance pipeclose
history_received = refl
