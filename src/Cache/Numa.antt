-- ===== src/Cache/Numa.antt =====
-- `NUMAInfo` of include/cache_utils.hpp and `detectNUMA` of src/cache_utils.cpp. What the folder
-- of the nodes holds is an argument.
use sim_library_v.Prelude.{
  ℕ, suc, Bool, true, false, Option, none, some, List, [], ◌∷◌, ltb, if◌then◌else◌,
}

pub record NumaInfo : Type 0 where
  pub available : Bool
  pub num_nodes : ℕ
  pub current_node : ℕ

-- How many entries have a name that begins with "node".
abbrev pub count_nodes : List Bool → ℕ
count_nodes [] = 0
count_nodes (true ∷ es) = suc (count_nodes es)
count_nodes (false ∷ es) = count_nodes es

-- For each entry of the folder, whether its name begins with "node"; `none` if the folder cannot
-- be opened.
unfoldable pub detect_numa : Option (List Bool) → NumaInfo
detect_numa none = record { available = false; num_nodes = 1; current_node = 0 }
detect_numa (some entries) =
    if ltb 1 (count_nodes entries)
    then record { available = true; num_nodes = count_nodes entries; current_node = 0 }
    else record { available = false; num_nodes = 1; current_node = 0 }
