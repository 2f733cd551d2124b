-- ===== src/Vm/Machine/Tests.antt =====
-- The theorems of the virtual machine at concrete inputs.
use wispy_vm.Prelude.{ℕ, false, refl, ◌≡◌, [], ◌∷◌, arith, length}
use wispy_vm.Vm.ValueInner.{is_cons}
use wispy_vm.Vm.Memory.Stack.{null}
use wispy_vm.Primitive.{Operation, done, failed}
use wispy_vm.Vm.Error
use wispy_vm.Vm.Value
use wispy_vm.Vm.Machine.{run_loop, run_with_continuation, step, recover}
use wispy_vm.Vm.Machine.Decode.{decode_loop}
use wispy_vm.Vm.Machine.Decode.Sequence.{encode_numbers, push_numbers, decode_loop-encode_numbers}
use wispy_vm.Vm.Cons
use wispy_vm.Vm.Machine.Instructions.{continuation}
use wispy_vm.Vm.Machine.Instructions.Frames.{Above, here, deeper, continuation-Above}
use wispy_vm.Vm.Memory.{Memory, get, car, cdr}
use wispy_vm.Vm.Memory.Sample.{cycle}

decode_loop-encode_numbers_example :
    decode_loop
      (λ n. n)
      (length (encode_numbers (1000 ∷ 5 ∷ [])))
      (encode_numbers (1000 ∷ 5 ∷ []))
      cycle
    ≡ push_numbers (1000 ∷ 5 ∷ []) cycle
decode_loop-encode_numbers_example =
    decode_loop-encode_numbers (λ n. n) (1000 ∷ 5 ∷ []) cycle (omega arith, (omega arith, tt))

-- A value lies at the address 2 above a frame at 0.
abbrev frames : Memory
frames = record {
  code = 131072;
  stack = 262144;
  false_cons = 131072;
  register = 131072;
  allocation_index = 4;
  space = false;
  heap = 786432 ∷ 131074 ∷ 11 ∷ 0 ∷ 0 ∷ 0 ∷ 0 ∷ 0 ∷ [];
}

frames-Above : Above frames 0 262144 1
unfolding cdr get Cons.index Cons.tag
frames-Above = deeper {next = 0} refl refl (here refl refl)

continuation-Above_example : continuation 2 frames ≡ car 0 frames
continuation-Above_example = continuation-Above frames 0 1 2 frames-Above (omega arith)

-- A primitive that does nothing.
abbrev skip : ℕ → Operation Error.Error (Unit {0}) (Unit {0})
skip primitive s m = (s, done tt m)

-- The code is out of bounds.
abbrev program : Memory
program = record cycle { code = Cons.new 100 }

run_result :
    (run_loop skip (λ e. e) Error.is_critical (λ e. []) 9 1 2 tt program).1
    ≡ failed Error.invalid_memory_access program
unfolding run_loop run_with_continuation step recover null car cdr get Error.is_critical
    Value.to_cons Value.to_typed is_cons Cons.eq Cons.index Cons.new Value.tag
run_result = refl
