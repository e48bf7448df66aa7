-- ===== src/Config/Tests.antt =====
-- A file setting.cfg with three request labels and as many response labels.
use hcmonitor.Prelude.{
  ℕ, ◌<◌, ◌≤◌, ◌≡◌, refl, pos, List, [], ◌∷◌, true, some, none, length, get_elem?, get_or,
}
use hcmonitor.Config.{Libconfig, max_label, init_config, get_config}
use hcmonitor.Config.Laws.{get_config-labels}

abbrev file : Libconfig
file = record {
  Setting = List ℕ;
  read_file = true;
  lookup_int = λ name. none;
  lookup_float = λ name. none;
  lookup = λ name. some (4 ∷ 5 ∷ 6 ∷ []);
  setting_length = λ s. pos 3;
  get_int_elem = λ s n. elim s [ none ↦ pos 0 | some l ↦ pos (get_or l n 0) ];
}

get_config-labels_example :
    let t = (get_config file (pos 7) (pos 8) (pos 0) (pos 0) init_config).conf in
    (t.label_count ≡ pos 2)
    × (2 ≤ max_label)
    × (length t.req_label ≡ max_label)
    × (length t.resp_label ≡ max_label)
    × ((j : ℕ)
        → j < 2
        → (get_elem? t.req_label j ≡ some (pos (get_or (4 ∷ 5 ∷ 6 ∷ []) j 0)))
          × (get_elem? t.resp_label j ≡ some (pos (get_or (4 ∷ 5 ∷ 6 ∷ []) j 0))))
unfolding init_config
get_config-labels_example =
    get_config-labels file (pos 7) (pos 8) (pos 0) (pos 0) init_config 3 refl refl refl refl refl
