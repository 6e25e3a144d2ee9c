-- ===== src/Pci/Tests.antt =====
-- A card without a driver whose calls succeed.
use ixy.Base.{ℕ, ◌≢◌, ◌==◌, if◌then◌else◌, ◌^◌, ◌-◌, ◌≡◌, refl, arith, none, some, bit_and}
use ixy.Base.Outcome.{ok}
use ixy.Pci.{Sysfs, Config, word_at, pci_map_resource}
use ixy.Pci.Map.{bus_master, Succeeds, pci_map_resource_lem}

abbrev pub working : Sysfs
working = record {
  open_unbind = none;
  open_config = some 3;
  open_resource = some 4;
  write_unbind = λ fd. 12;
  strlen = 12;
  lseek = λ fd offset. offset;
  read_count = λ fd. 2;
  write_count = λ fd. 2;
  fstat = λ fd. some 0x80000;
  mmap = λ fd size. some 0x7f0000000000;
}

pub working-Succeeds : Succeeds working 0x7f0000000000
working-Succeeds = record {
  config = 3;
  resource = 4;
  size = 0x80000;
  opens_config = refl;
  seeks = refl;
  reads = refl;
  writes = refl;
  opens_resource = refl;
  stats = refl;
  maps = refl;
}

-- A configuration space whose command register is 0x403.
abbrev pub fresh_config : Config
fresh_config = record { space = λ a. if a == 4 then 3 else 4; position = 0 }

pci_map_resource_lem_example :
    (c' : Config) × (pci_map_resource working fresh_config ≡ ok (0x7f0000000000, c'))
    × (bit_and (word_at c'.space 4) bus_master ≡ bus_master)
    × (bit_and (word_at c'.space 4) (2 ^ 16 - 1 - bus_master)
        ≡ bit_and 0x403 (2 ^ 16 - 1 - bus_master))
    × ((a : ℕ) → a ≢ 4 → a ≢ 5 → c'.space a ≡ (if a == 4 then 3 else 4))
pci_map_resource_lem_example =
    pci_map_resource_lem working 0x7f0000000000 working-Succeeds fresh_config (omega arith)
      (omega arith)
