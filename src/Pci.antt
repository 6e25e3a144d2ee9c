-- ===== src/Pci.antt =====
-- src/pci.c: unloading the kernel's driver of a card, enabling DMA and mapping its registers.
--
-- The files of sysfs are a parameter. The state is the bytes of the card's configuration space and
-- the position in its file, which every transfer moves on.
pub mod Map
pub mod Tests
use ixy.Base.{
  ℕ, ◌+◌, ◌*◌, ◌/◌, ◌%◌, Bool, false, Option, none, some, bit_or, u16, if◌then◌else◌, ◌==◌, ◌<<<◌,
  update,
}
use ixy.Base.Outcome.{Cmd, ok, ◌>>=◌, ◌>>◌, pure, abort, check_err}

-- What the calls return for the files of a card below /sys/bus/pci/devices. `none` is -1.
pub record Sysfs : Type 0 where
  -- `open` of `driver/unbind`, `config` and `resource0`.
  pub open_unbind : Option ℕ
  pub open_config : Option ℕ
  pub open_resource : Option ℕ
  -- The number of bytes of the card's address that `write` takes, and that it has.
  pub write_unbind : ℕ → ℕ
  pub strlen : ℕ
  -- The position after `lseek(fd, offset, SEEK_SET)`, and the bytes that `read` and `write`
  -- transfer.
  pub lseek : (fd offset : ℕ) → ℕ
  pub read_count : ℕ → ℕ
  pub write_count : ℕ → ℕ
  -- The size that `fstat` tells, and the address of `mmap` for a size.
  pub fstat : ℕ → Option ℕ
  pub mmap : ℕ → ℕ → Option ℕ

pub record Config : Type 0 where
  pub space : ℕ → ℕ
  pub position : ℕ

-- The 16-bit word at an offset.
abbrev pub word_at : (ℕ → ℕ) → ℕ → ℕ
word_at space a = space a + space (a + 1) * 256

-- `assert(...)`, in a build without NDEBUG.
abbrev pub assert : Bool → Cmd Config (Unit {0})
assert b = if b then pure tt else abort

module _ (fs : Sysfs) where
  -- Whether the driver was told to let the card go. No case is an error.
  unfoldable pub remove_driver : Cmd Config Bool
  remove_driver = elim fs.open_unbind [
    | none ↦ pure false
    | some fd ↦ pure (fs.write_unbind fd == fs.strlen)
  ]

  -- The calls on the file of the configuration space. `read` and `write` are those of two bytes.
  abbrev pub seek : ℕ → ℕ → Cmd Config ℕ
  seek fd offset c = ok (fs.lseek fd offset, record c { position = fs.lseek fd offset })

  abbrev pub read_word : ℕ → Cmd Config (ℕ × ℕ)
  read_word fd c = ok (
    (fs.read_count fd, word_at c.space c.position),
    record c { position = c.position + fs.read_count fd },
  )

  abbrev pub write_word : ℕ → ℕ → Cmd Config ℕ
  write_word fd v c = ok (
    fs.write_count fd,
    record {
      space = update (update c.space c.position (v % 256)) (c.position + 1) (v / 256 % 256);
      position = c.position + fs.write_count fd;
    },
  )

  unfoldable pub enable_dma : Cmd Config (Unit {0})
  enable_dma = do
    fd ← check_err fs.open_config
    first ← seek fd 4
    assert (first == 4)
    got ← read_word fd
    assert (got.0 == 2)
    second ← seek fd 4
    assert (second == 4)
    written ← write_word fd (u16 (bit_or got.1 (1 <<< 2)))
    assert (written == 2)

  -- The address of the registers.
  unfoldable pub pci_map_resource : Cmd Config ℕ
  pci_map_resource = do
    _ ← remove_driver
    enable_dma
    fd ← check_err fs.open_resource
    st_size ← check_err (fs.fstat fd)
    check_err (fs.mmap fd st_size)
