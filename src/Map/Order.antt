-- ===== src/Map/Order.antt =====
-- The instances of `Key`: byte strings, and file descriptor numbers.
use world.Prelude.{ℕ, ◌==◌, ==_iff, compare}
use world.Map.{Key}
use world.Bytes.{Bytes, beq, beq_iff, lex}

instance abbrev pub bytes_key : Key Bytes
bytes_key = record { eqb = beq; cmp = lex; eqb_iff = beq_iff }

instance abbrev pub fd_key : Key ℕ
fd_key = record { eqb = ◌==◌; cmp = compare; eqb_iff = ==_iff }
