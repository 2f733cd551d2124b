-- ===== src/Vm/Tags.antt =====
-- vm/src/type.rs, vm/src/instruction.rs and vm/src/stack_slot.rs: the tags. The Cayley table that
-- type.rs passes on is the crate wispy-table's.
use wispy_vm.Prelude.{ℕ}

abbrev pub pair_type : ℕ
pair_type = 0

abbrev pub null_type : ℕ
null_type = 1

abbrev pub boolean_type : ℕ
boolean_type = 2

abbrev pub procedure_type : ℕ
procedure_type = 3

abbrev pub symbol_type : ℕ
symbol_type = 4

abbrev pub string_type : ℕ
string_type = 5

abbrev pub character_type : ℕ
character_type = 6

abbrev pub vector_type : ℕ
vector_type = 7

abbrev pub byte_vector_type : ℕ
byte_vector_type = 8

abbrev pub record_type : ℕ
record_type = 9

abbrev pub foreign_type : ℕ
foreign_type = 65535

abbrev pub constant_instruction : ℕ
constant_instruction = 0

abbrev pub get_instruction : ℕ
get_instruction = 1

abbrev pub set_instruction : ℕ
set_instruction = 2

abbrev pub if_instruction : ℕ
if_instruction = 3

abbrev pub call_instruction : ℕ
call_instruction = 4

abbrev pub value_slot : ℕ
value_slot = 0

abbrev pub frame_slot : ℕ
frame_slot = 1
