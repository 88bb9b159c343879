-- ===== src/Model/Resources.antt =====
-- internal/model/resources.go: the resource vector. Fields are int64 bit patterns.
use k8s_dencer.Base.{ℕ, Bool, ◌&&◌, ◌==◌, nat_eq, add64, sub64, max64, le64}

pub record Resources : Type 0 where
  pub milli_cpu : ℕ
  pub memory_bytes : ℕ
  pub pods : ℕ

abbrev pub zero_resources : Resources
zero_resources = record { milli_cpu = 0; memory_bytes = 0; pods = 0 }

-- `Resources{Pods: 1}`
abbrev pub one_pod : Resources
one_pod = record { milli_cpu = 0; memory_bytes = 0; pods = 1 }

unfoldable pub add : Resources → Resources → Resources
add r o = record {
  milli_cpu = add64 r.milli_cpu o.milli_cpu;
  memory_bytes = add64 r.memory_bytes o.memory_bytes;
  pods = add64 r.pods o.pods;
}

unfoldable pub sub : Resources → Resources → Resources
sub r o = record {
  milli_cpu = max64 (sub64 r.milli_cpu o.milli_cpu) 0;
  memory_bytes = max64 (sub64 r.memory_bytes o.memory_bytes) 0;
  pods = max64 (sub64 r.pods o.pods) 0;
}

unfoldable pub fits : Resources → Resources → Bool
fits r capacity =
    le64 r.milli_cpu capacity.milli_cpu
    && le64 r.memory_bytes capacity.memory_bytes
    && le64 r.pods capacity.pods

unfoldable pub is_zero : Resources → Bool
is_zero r = r.milli_cpu == 0 && r.memory_bytes == 0 && r.pods == 0
