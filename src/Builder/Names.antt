-- ===== src/Builder/Names.antt =====
-- bteng/core/tree_builder.py: the text of an automatic name.
use Prim.Native.String.{◌++◌}
use text.Mathlib.Text.{get?}
use bteng.Prelude.{ℕ, zero, suc, ◌+◌, ◌-◌, ◌*◌, ◌/◌, String, ltb, if◌then◌else◌, or_else}

-- A digit below 10.
digit : ℕ → String
digit n = or_else (get? "0123456789" n (n + 1)) ""

-- The decimal digits of n; a number has no more than itself of them, or one.
decimal : ℕ → ℕ → String
unfolding digit
decimal zero n = digit n
decimal (suc fuel) n =
    let before = decimal fuel (n / 10) in
    if ltb n 10 then digit n else before ++ digit (n - (n / 10) * 10)

-- f"{type_name}_{n}"
unfoldable pub numbered : String → ℕ → String
unfolding decimal
numbered type_name n = type_name ++ "_" ++ decimal n n
