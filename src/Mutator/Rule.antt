-- ===== src/Mutator/Rule.antt =====
-- `RDasRule` of pkg/mutator/rdasmutator.go.
use Prim.Native.String.{String}
use migp.Base.{Bytes, codes}
use migp.Base.Int.{ℤ}

-- Strings are the bytes that they hold.
pub record RDasRule : Type 0 where
  pub rule_type : Bytes
  pub position : ℤ
  pub string1 : Bytes
  pub string2 : Bytes

-- A rule as the table writes it, with ASCII text.
abbrev pub rule : String → ℤ → String → String → RDasRule
rule t p s1 s2 = record {
  rule_type = codes t;
  position = p;
  string1 = codes s1;
  string2 = codes s2;
}
