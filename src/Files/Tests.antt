-- ===== src/Files/Tests.antt =====
-- The file table at concrete inputs, and its theorems there.
use laboratorio_ramiro.Prelude.{ℕ, List, ◌++◌, ◌≡◌, false, some, refl, ◌∷◌, [], true}
use laboratorio_ramiro.Files.{
  FileCall, fileclose, filedup, put_file, fd_pipe, filealloc_at, fd_none, File, filealloc, Ftable,
}
use laboratorio_ramiro.Files.References.{
  Closing, fileclose-last, sets, allocs, next, Reach-IsCounted, boots, Reach, IsCounted,
}
use laboratorio_ramiro.Proc.{first}
use laboratorio_ramiro.Kalloc.Owners.{count}

-- A table with nothing open.
empty_table : Ftable
empty_table i = record {
  type = fd_none;
  ref = 0;
  readable = false;
  writable = false;
  pipe = 0;
  ip = 0;
  off = 0;
}

booted : Reach (empty_table, [])
unfolding empty_table
booted = boots empty_table (λ i. refl)

opened : Ftable
opened = (filealloc empty_table).1

opened_reached : Reach (opened, 0 ∷ [])
unfolding opened filealloc filealloc_at first empty_table
opened_reached = next booted (allocs refl)

-- The write end of pipe 5.
abbrev write_end : File
write_end = record {
  type = fd_pipe;
  ref = 1;
  readable = false;
  writable = true;
  pipe = 5;
  ip = 0;
  off = 0;
}

filled_reached : Reach (put_file opened 0 write_end, 0 ∷ [])
unfolding opened filealloc filealloc_at first empty_table
filled_reached = next opened_reached (sets [] 0 [] write_end refl)

Reach-IsCounted_example : IsCounted (put_file opened 0 write_end, 0 ∷ [])
Reach-IsCounted_example = Reach-IsCounted filled_reached

fileclose-last_example :
    ((t' : Ftable) × (filedup 0 (put_file opened 0 write_end) ≡ some t'))
    × ((t' : Ftable) × (calls : List FileCall) × (fileclose 0 (put_file opened 0 write_end)
          ≡ some (t', calls))
        × ((j : ℕ) → (t' j).ref ≡ count j ([] ++ []))
        × Closing write_end (count 0 ([] ++ [])) calls)
fileclose-last_example = fileclose-last (put_file opened 0 write_end) [] 0 [] filled_reached

second_file : (filealloc (put_file opened 0 write_end)).0 ≡ some 1
unfolding opened filealloc filealloc_at first empty_table
second_file = refl
