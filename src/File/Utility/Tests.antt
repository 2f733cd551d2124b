-- ===== src/File/Utility/Tests.antt =====
-- A list that goes round for ever.
use wispy_vm.File.Utility.{stuck, decode_path}
use wispy_vm.File.Utility.Fuel.{decode_path-ne-stuck}
use wispy_vm.Prelude.{◌≢◌, arith}
use wispy_vm.Vm.Memory.Sample.{cycle}

decode_path-ne-stuck_example : decode_path 5 4 cycle cycle.stack ≢ stuck
decode_path-ne-stuck_example = decode_path-ne-stuck 5 4 cycle cycle.stack (omega arith)
