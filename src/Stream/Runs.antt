-- ===== src/Stream/Runs.antt =====
-- Runs of the fixed-size transfers of yk/stream.cc.
use yk_server.Base.{ℕ, ◌≡◌, List, [], ◌∷◌, ◌++◌, map, arith}
use yk_server.Base.Ints.{pos, to_int}
use yk_server.Stream.{bytes, failed, returned, read_fix_size, write_fix_size}
use yk_server.Stream.Transfers.{
  calls_then, fix_size-chunks, read_fix_size-failed, write_fix_size-failed,
}

abbrev two_chunks : List ℕ
two_chunks = 5 ∷ 3 ∷ []

fix_size-chunks_example :
    (read_fix_size (map bytes two_chunks ++ []) 8
      ≡ calls_then two_chunks 0 8 ([], returned (pos 8)))
    × (write_fix_size (map bytes two_chunks ++ []) 8
        ≡ calls_then two_chunks 0 8 ([], returned (pos 8)))
unfolding to_int
fix_size-chunks_example = fix_size-chunks two_chunks [] (omega arith) (omega arith)

read_fix_size-failed_example :
    read_fix_size (bytes 5 ∷ failed ∷ bytes 4 ∷ []) 8
    ≡ ((0, 8) ∷ (5, 3) ∷ (4, 4) ∷ [], returned (pos 8))
unfolding to_int
read_fix_size-failed_example =
    read_fix_size-failed 5 [] (4 ∷ []) [] 8 (omega arith) (omega arith) (omega arith) (omega arith)
      (omega arith)

write_fix_size-failed_example :
    (write_fix_size (map bytes two_chunks ++ (failed ∷ [])) 10).1 ≡ returned (pos 10)
unfolding to_int
write_fix_size-failed_example =
    write_fix_size-failed two_chunks [] 10 (omega arith) (omega arith) (omega arith)
