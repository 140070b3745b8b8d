-- ===== src/Config/Tests.antt =====
-- A configuration file of two lines.
use kv_my.Common.{◌≡◌, arith, [], ◌∷◌}
use kv_my.Common.Bytes.{Bytes}
use kv_my.Common.Maps.{lookup, bytes_key}
use kv_my.Config.{load_config_file}
use kv_my.Config.Lines.{IsEntry, print_file}
use kv_my.Config.Entries.{load_config_file-print}

abbrev address : Bytes × Bytes
address = (110 ∷ [], 49 ∷ 46 ∷ [])

address-IsEntry : IsEntry address
address-IsEntry = record {
  key = (
    λ e. absurd (omega arith),
    ((λ e. absurd (omega arith), λ e. absurd (omega arith), λ e. absurd (omega arith)), tt),
    (λ e. absurd (omega arith), tt),
  );
  value = (
    (λ e. absurd (omega arith), λ e. absurd (omega arith), λ e. absurd (omega arith)),
    ((λ e. absurd (omega arith), λ e. absurd (omega arith), λ e. absurd (omega arith)), tt),
  );
  fits = omega arith;
}

load_config_file-print_example :
    lookup (load_config_file [] (print_file (address ∷ []))) (110 ∷ [])
    ≡ lookup (address ∷ []) (110 ∷ [])
load_config_file-print_example =
    load_config_file-print (address ∷ []) (110 ∷ []) (address-IsEntry, tt)
