-- ===== src/Expression/Value.antt =====
-- core/internal/script/expression/value.go: `Value` and `Kind`. A value carries the payload of its
-- own kind only; the Go struct's other payloads are zero and never read.
use atomyx.Prelude.{Bool, Text}

pub data Kind : Type 0 where
  number string bool : Kind

pub data Value (A : Type 0) : Type 0 where
  number : A → Value A
  string : Text → Value A
  bool : Bool → Value A

unfoldable pub kind : {A : Type 0} → Value A → Kind
kind (Value.number f) = Kind.number
kind (Value.string s) = Kind.string
kind (Value.bool b) = Kind.bool
