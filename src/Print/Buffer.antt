-- ===== src/Print/Buffer.antt =====
-- sprintputch and vsnprintf of libs/printfmt.c.
use lab.Base.{
  ℕ, ◌+◌, ◌-◌, ◌%◌, ◌^◌, ltb, ◌==◌, if◌then◌else◌, update, List, [], ◌∷◌, ◌||◌, ℤ, Outcome, ok,
  ◌>>=◌,
}
use lab.Vmm.{e_inval}
use lab.Space.{Bytes}
use lab.Print.{Arg, to_int}
use lab.Print.Format.{vprintfmt}

-- `struct sprintbuf`, with the memory that it points into.
pub record Sprintbuf : Type 0 where
  pub buf : ℕ
  pub ebuf : ℕ
  pub cnt : ℕ
  pub mem : Bytes

unfoldable pub sprintputch : ℕ → Sprintbuf → Sprintbuf
sprintputch ch b =
    let cnt = (b.cnt + 1) % 2 ^ 32 in
    if ltb b.buf b.ebuf
    then record b { cnt = cnt; mem = update b.mem b.buf (ch % 256); buf = b.buf + 1 }
    else record b { cnt = cnt }

-- All characters, as `vprintfmt` prints them.
unfoldable pub put_all : List ℕ → Sprintbuf → Sprintbuf
unfolding sprintputch
put_all [] b = b
put_all (ch ∷ out) b = put_all out (sprintputch ch b)

-- `str + size - 1` is below `str` if `size` is 0.
unfoldable pub vsnprintf : ℕ → ℕ → ℕ → List ℕ → List Arg → Bytes → Outcome (ℤ × Bytes)
unfolding put_all
vsnprintf fuel str size fmt args mem =
    let b : Sprintbuf = record { buf = str; ebuf = str + size - 1; cnt = 0; mem = mem } in
    if (str == 0) || (size == 0) then ok (e_inval, mem) else (do
      out ← vprintfmt fuel fmt args
      let b' = put_all out b
      ok (to_int b'.cnt, update b'.mem b'.buf 0))
