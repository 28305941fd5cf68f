-- ===== src/Workspace/Arena.antt =====
-- cpp/execution/workspace_arena.cu: the layout over one device allocation. The destructor, which
-- gives the allocation back to the memory resource, is left out.
use native.Mathlib.Nat.{mod-add-div, add-mul-mod_self_left}
use raftinfer.Base.{
  ℕ, ◌+◌, ◌*◌, ◌/◌, ◌%◌, ◌≤◌, ◌≡◌, subst, arith, size_max, Result, ok, ◌>>=◌, >>=-eq-ok, ◌==◌,
  if◌then◌else◌,
}
use raftinfer.Workspace
use raftinfer.Workspace.{WorkspaceLayout, IsValid}
use raftinfer.Workspace.Bounds.{allocate-Placement}

pub record WorkspaceArena : Type 0 where
  pub base : ℕ
  pub layout : WorkspaceLayout

-- The constructor; `resource` stands for the memory resource's `allocate`, from size to address.
pub create : (ℕ → ℕ) → ℕ → WorkspaceArena
create resource n =
    let n' = if n == 0 then 1 else n in record { base = resource n'; layout = Workspace.create n' }

-- WorkspaceArena::allocate
unfoldable pub allocate : WorkspaceArena → ℕ → ℕ → Result (ℕ × WorkspaceArena)
allocate arena n alignment = do
  (offset, layout) ← Workspace.allocate arena.layout n alignment
  ok (arena.base + offset, record arena { layout = layout })

-- What a call that returns `address` has done.
pub record Pointer (arena : WorkspaceArena) (n alignment address : ℕ) (arena' : WorkspaceArena)
    : Type 0 where
  pub from : arena.base + arena.layout.used ≤ address
  pub to : address + n ≤ arena.base + arena.layout.capacity
  pub aligned : address % alignment ≡ arena.base % alignment
  pub same_base : arena'.base ≡ arena.base
  pub valid : IsValid arena'.layout

-- An address that a call returns starts a buffer of `n` bytes inside the allocation, behind what was
-- used before, whatever the alignment. It is as far from a multiple of the alignment as the allocation's
-- own address, so it is aligned as asked exactly if that is. The arena stays valid on its old address.
pub allocate-Pointer :
    (arena : WorkspaceArena) (n alignment address : ℕ) (arena' : WorkspaceArena)
    → IsValid arena.layout
    → n ≤ size_max
    → alignment ≤ size_max
    → allocate arena n alignment ≡ ok (address, arena')
    → Pointer arena n alignment address arena'
unfolding allocate
allocate-Pointer arena n alignment address arena' valid small word h =
    let ((offset, layout), e, h₁) = >>=-eq-ok (Workspace.allocate arena.layout n alignment) _ h in
    let p = allocate-Placement arena.layout n alignment offset layout valid small word e in
    let here : arena.base + offset ≡ address = cc h₁ in
    let same : record arena { layout = layout } ≡ arena' = cc h₁ in
    let parts : alignment * (offset / alignment) ≡ offset =
      omega (arith, mod-add-div offset alignment, p.aligned) in
    let turned : (arena.base + alignment * (offset / alignment)) % alignment
        ≡ arena.base % alignment =
      add-mul-mod_self_left arena.base alignment (offset / alignment) in
    record {
      from = omega (arith, p.above, here);
      to = omega (arith, p.room, here);
      aligned =
          rw (← here)
            (subst (λ k. (arena.base + k) % alignment ≡ arena.base % alignment) parts turned);
      same_base = cc same;
      valid = subst (λ (a : WorkspaceArena). IsValid a.layout) same p.valid;
    }
