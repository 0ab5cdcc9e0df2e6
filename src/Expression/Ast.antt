-- ===== src/Expression/Ast.antt =====
-- The syntax trees of core/expression.py. The program's nested dicts have the key "op", which is
-- the constructor here.
use agentwire_cue.Prelude.{String, List}
use agentwire_cue.Value.{Runtime, Value}

-- "==", "!=", ">", "<", ">=", "<="
pub data CmpOp : Type 0 where
  eq ne gt lt ge le : CmpOp

-- "and", "or"
pub data LogicalOp : Type 0 where
  and or : LogicalOp

mutual
  pub data Ast (rt : Runtime) : Type 0 where
    literal : Value rt → Ast rt
    variable : List String → Ast rt
    function : String → Args rt → Ast rt
    method : List String → Args rt → Ast rt
    cmp : CmpOp → Ast rt → Ast rt → Ast rt
    logical : LogicalOp → Ast rt → Ast rt → Ast rt
    not : Ast rt → Ast rt

  pub data Args (rt : Runtime) : Type 0 where
    no_args : Args rt
    arg : Ast rt → Args rt → Args rt
