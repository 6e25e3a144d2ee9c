-- ===== src/Pci/Map.antt =====
-- What `pci_map_resource` leaves in the card's command register.
use ixy.Base.{
  ℕ, ◌^◌, ◌<◌, ◌≡◌, refl, ap, ◌∙◌, arith, Bool, false, Option, none, some, ◌==◌, bit_and, bit_or,
  u16, ◌<<<◌, ◌-◌, ◌/◌, ◌%◌, ◌≢◌, update, update_self, update_ne,
}
use ixy.Base.Bits.{bit_and-bit_or_self, bit_or-outside, bit_or-lt}
use ixy.Base.Outcome.{ok}
use ixy.Pci.{Sysfs, Config, word_at, remove_driver, enable_dma, pci_map_resource}

-- The bit of the command register with which a card may start DMA.
abbrev pub bus_master : ℕ
bus_master = 1 <<< 2

-- The calls for the configuration and for the registers succeed.
pub record Succeeds (fs : Sysfs) (addr : ℕ) : Type 0 where
  pub config : ℕ
  pub resource : ℕ
  pub size : ℕ
  pub opens_config : fs.open_config ≡ some config
  pub seeks : fs.lseek config 4 ≡ 4
  pub reads : fs.read_count config ≡ 2
  pub writes : fs.write_count config ≡ 2
  pub opens_resource : fs.open_resource ≡ some resource
  pub stats : fs.fstat resource ≡ some size
  pub maps : fs.mmap resource size ≡ some addr

module _ (fs : Sysfs) (addr : ℕ) (s : Succeeds fs addr) (c : Config) where
  -- The word that is written to the command register.
  abbrev pub with_bus_master : ℕ
  with_bus_master = u16 (bit_or (word_at c.space 4) (1 <<< 2))

  abbrev pub enabled : Config
  enabled = record {
    space = update (update c.space 4 (with_bus_master % 256)) 5 (with_bus_master / 256 % 256);
    position = 6;
  }

  enable_dma_lem : enable_dma fs c ≡ ok (tt, enabled)
  unfolding enable_dma
  enable_dma_lem = rw (s.opens_config, s.seeks, s.reads, s.seeks, s.writes) refl

  remove_driver_lem : (b : Bool) × (remove_driver fs c ≡ ok (b, c))
  unfolding remove_driver
  remove_driver_lem = go fs.open_unbind refl
    where
      go : (o : Option ℕ) → fs.open_unbind ≡ o → (b : Bool) × (remove_driver fs c ≡ ok (b, c))
      go none e = (false, rw e refl)
      go (some fd) e = (fs.write_unbind fd == fs.strlen, rw e refl)

  pub pci_map_resource-enabled : pci_map_resource fs c ≡ ok (addr, enabled)
  unfolding pci_map_resource
  pci_map_resource-enabled =
      rw (remove_driver_lem.1, enable_dma_lem, s.opens_resource, s.stats, s.maps) refl

  command_lem : word_at enabled.space 4 ≡ with_bus_master
  command_lem =
      let low : enabled.space 4 ≡ with_bus_master % 256 =
        update_ne _ 5 4 _ (λ e. omega (arith, e)) ∙ update_self c.space 4 _ in
      let high : enabled.space 5 ≡ with_bus_master / 256 % 256 = update_self _ 5 _ in
      omega (arith, low, high)

  -- If the calls for the configuration and the registers of the card succeed, whether or not a
  -- driver could be unloaded, `pci_map_resource` returns the address of the registers. Of the
  -- 16-bit command register at offset 4 of the configuration space, the bus master bit is then set,
  -- and the other bits are as before; so are all other bytes of the space.
  pub pci_map_resource_lem :
      c.space 4 < 256
      → c.space 5 < 256
      → (c' : Config) × (pci_map_resource fs c ≡ ok (addr, c'))
        × (bit_and (word_at c'.space 4) bus_master ≡ bus_master)
        × (bit_and (word_at c'.space 4) (2 ^ 16 - 1 - bus_master)
            ≡ bit_and (word_at c.space 4) (2 ^ 16 - 1 - bus_master))
        × ((a : ℕ) → a ≢ 4 → a ≢ 5 → c'.space a ≡ c.space a)
  pci_map_resource_lem low high =
      let old = word_at c.space 4 in
      let fits : bit_or old bus_master < 2 ^ 16 =
        bit_or-lt 16 old bus_master (omega (arith, low, high)) (omega arith) in
      let same : word_at enabled.space 4 ≡ bit_or old bus_master =
        command_lem ∙ omega (arith, fits) in
      (
        enabled,
        pci_map_resource-enabled,
        ap (λ x. bit_and x bus_master) same ∙ bit_and-bit_or_self bus_master old,
        ap (λ x. bit_and x (2 ^ 16 - 1 - bus_master)) same
            ∙ bit_or-outside 16 bus_master old (omega arith),
        λ a ne_low ne_high. update_ne _ 5 a _ ne_high ∙ update_ne c.space 4 a _ ne_low,
      )
