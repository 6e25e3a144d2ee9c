-- ===== src/Allocator/Stack.antt =====
-- src/allocator/stack_allocator.c: a stack of free slots of one size.
--
-- A build without NDEBUG: `deallocate` clears the block that it is given.
pub mod Slots
pub mod New
mod Tests
use ixy.Base.{
  ℕ, ◌+◌, ◌-◌, ◌*◌, ◌/◌, Bool, not, ◌==◌, ◌&&◌, ◌||◌, if◌then◌else◌, ltb, leb, Option, none, some,
  List, u32, length, get_elem?, set,
}
use ixy.Base.Outcome.{Cmd, ◌>>=◌, ◌>>◌, pure, gets, abort, undefined, or_fault, modify}
use ixy.Allocator.{MemBlk}

-- `struct stack_allocator`. As the struct is padded, there is room for `num_entries + 1` ids.
pub record StackAllocator : Type 0 where
  pub base_addr : ℕ
  pub entry_size : ℕ
  pub num_entries : ℕ
  pub free_stack_top : ℕ
  pub free_stack : List ℕ

unfoldable pub allocate : ℕ → Cmd StackAllocator MemBlk
allocate size = do
  a ← gets (λ a. a)
  if a.free_stack_top == 0 || ltb a.entry_size size then pure (record { ptr = 0; size = 0 }) else do
    let top = a.free_stack_top - 1
    id ← or_fault (get_elem? a.free_stack top)
    modify (λ a. record a { free_stack_top = top })
    pure (record { ptr = a.base_addr + u32 (id * a.entry_size); size = a.entry_size })

-- The slot of an address, `none` if it is negative. The division of C truncates towards 0.
unfoldable pub entry_id : StackAllocator → ℕ → Option ℕ
entry_id a ptr =
    if leb a.base_addr ptr
    then some ((ptr - a.base_addr) / a.entry_size)
    else if (a.base_addr - ptr) / a.entry_size == 0
    then some 0
    else none

-- `free_stack[free_stack_top++] = id`.
unfoldable pub push : ℕ → Cmd StackAllocator (Unit {0})
push id = do
  a ← gets (λ a. a)
  if ltb a.free_stack_top (length a.free_stack)
      then modify (λ a. record a {
        free_stack_top = u32 (a.free_stack_top + 1);
        free_stack = set a.free_stack a.free_stack_top (u32 id);
      })
      else undefined

-- The result is what becomes of the block.
unfoldable pub deallocate : MemBlk → Cmd StackAllocator MemBlk
unfolding entry_id push
deallocate blk = do
  a ← gets (λ a. a)
  if not (a.entry_size == blk.size) then abort else elim (entry_id a blk.ptr) [
    | none ↦ abort
    | some id ↦
        if ltb a.num_entries id then abort else do push id; pure (record { ptr = 0; size = 0 })
  ]

unfoldable pub owns : StackAllocator → MemBlk → Bool
owns a blk =
    leb a.base_addr blk.ptr && ltb blk.ptr (a.base_addr + u32 (a.num_entries * a.entry_size))
