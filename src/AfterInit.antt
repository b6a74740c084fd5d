-- ===== src/AfterInit.antt =====
-- afterInit.c, the list of commands: `newItem`, `afterInitHook`, `atInitStageIocsh` and the shell
-- functions above it. Items lie in a heap at addresses that `malloc` counts up; `cmdlast` points to
-- the variable `cmdlist` or to the field `next` of an item. The numbers of the init hooks are those
-- of EPICS base, the parameter `hooks`, and whether `malloc` succeeds is an argument. What the hook
-- runs is the list of commands that it passes to `iocshCmd` or calls.
pub mod Hooks
pub mod CommandText
pub mod Chain
pub mod View
pub mod Registers
pub mod Order
pub mod HookNames
pub mod CommandLine
pub mod Vx
mod Tests
use iocsh_utilities.Base.{
  ℕ, zero, suc, ◌+◌, ◌==◌, ltb, leb, if◌then◌else◌, Bool, true, false, ◌&&◌, Option, none, some,
  List, [], ◌∷◌, Text, length,
}
use iocsh_utilities.AfterInit.Hooks.{
  Hook, ioc_pause, interrupt_accept, after_ioc_running, beginning, Names, hook_name_to_number,
}
use iocsh_utilities.AfterInit.CommandText.{command_text}

-- The union `x`: a command line, or a function with its eleven arguments (vxWorks).
pub data Command : Type 0 where
  unset : Command
  shell : Text → Command
  call : List ℕ → Command

-- `struct cmditem`; which part of the union is used is `useIocshCmd`.
pub record Item : Type 0 where
  pub next : Option ℕ
  pub when : ℕ
  pub command : Command

-- What `cmdlast` points to.
pub data Slot : Type 0 where
  head : Slot
  next_of : ℕ → Slot

pub record State : Type 0 where
  pub heap : ℕ → Item
  pub fresh : ℕ
  pub cmdlist : Option ℕ
  pub cmdlast : Slot
  pub first_time : Bool
  pub registered : ℕ

abbrev pub set_item : (ℕ → Item) → ℕ → Item → ℕ → Item
set_item heap a item i = if i == a then item else heap i

-- `*cmdlast = item`.
unfoldable pub write_slot : Slot → ℕ → State → State
write_slot head a s = record s { cmdlist = some a }
write_slot (next_of b) a s = record s {
  heap = set_item s.heap b (record (s.heap b) { next = some a });
}

-- `if (!cmdlist) cmdlast = &item->next;`.
unfoldable pub first_slot : Option ℕ → ℕ → Slot → Slot
first_slot none a slot = next_of a
first_slot (some _) a slot = slot

-- The two ways to link a new item in.
unfoldable pub push_front : ℕ → ℕ → State → State
unfolding first_slot
push_front when a s = record s {
  heap = set_item s.heap a (record { next = s.cmdlist; when = when; command = unset });
  fresh = a + 1;
  cmdlist = some a;
  cmdlast = first_slot s.cmdlist a s.cmdlast;
}

unfoldable pub push_back : ℕ → ℕ → State → State
unfolding write_slot
push_back when a s =
    let t : State = record s {
      heap = set_item s.heap a (record { next = none; when = when; command = unset });
      fresh = a + 1;
    } in
    record (write_slot s.cmdlast a t) { cmdlast = next_of a }

-- `initHookRegister(afterInitHook)`, once.
unfoldable pub register_hook : State → State
register_hook s =
    if s.first_time then record s { first_time = false; registered = s.registered + 1 } else s

-- What comes of a call of a shell function. `overrun` is a write behind the buffer of the command
-- line, and `null_word` a read of a word that is not there.
pub data Outcome : Type 0 where
  stored : State → Outcome
  refused : State → Outcome
  usage unknown_hook overrun null_word : Outcome

unfoldable pub fill_item : ℕ → Command → State → State
fill_item a c s = record s { heap = set_item s.heap a (record (s.heap a) { command = c }) }

-- `sprintf` into `item->x.cmd`, whose 256 bytes end with a NUL.
unfoldable pub store_command : Option ℕ → List Text → State → Outcome
unfolding command_text fill_item
store_command none words s = refused s
store_command (some a) [] s = null_word
store_command (some a) (w ∷ words) s =
    let text = command_text w words in
    if ltb (length text) 256 then stored (fill_item a (shell text) s) else overrun

module _ (hooks : Hook → ℕ) where
  -- `when >= initHookAtIocPause && when < initHookAfterInterruptAccept`.
  abbrev pub is_reversed : ℕ → Bool
  is_reversed when = leb (hooks ioc_pause) when && ltb when (hooks interrupt_accept)

  unfoldable pub link_item : ℕ → ℕ → State → State
  unfolding push_front push_back
  link_item when a s = if is_reversed when then push_front when a s else push_back when a s

  -- `newItem`: the address of the item, unless it is too late or there is no memory.
  unfoldable pub new_item : Bool → Bool → ℕ → State → Option ℕ × State
  unfolding register_hook link_item
  new_item accept malloc_ok when s =
      if accept
      then (none, s)
      else if malloc_ok
      then (let t = register_hook s in (some t.fresh, link_item when t.fresh t))
      else (none, register_hook s)

  -- `atInitStageIocsh`, with the words of the command from `cmdword[1]` on.
  unfoldable pub at_init_stage_iocsh : Bool → Bool → ℕ → List Text → State → Outcome
  unfolding new_item store_command
  at_init_stage_iocsh accept malloc_ok when words s =
      let (item, t) = new_item accept malloc_ok when s in store_command item words t

  -- `afterInitFunc`, `atInitFunc` and `atInitStageFunc`, with the words `aval.av`.
  unfoldable pub after_init_func : Bool → Bool → List Text → State → Outcome
  unfolding at_init_stage_iocsh
  after_init_func accept malloc_ok [] s = usage
  after_init_func accept malloc_ok (_ ∷ words) s =
      at_init_stage_iocsh accept malloc_ok (hooks after_ioc_running) words s

  unfoldable pub at_init_func : Bool → Bool → List Text → State → Outcome
  unfolding at_init_stage_iocsh
  at_init_func accept malloc_ok [] s = usage
  at_init_func accept malloc_ok (_ ∷ words) s =
      at_init_stage_iocsh accept malloc_ok (hooks beginning) words s

  unfoldable pub at_stage : Bool → Bool → Option ℕ → List Text → State → Outcome
  unfolding at_init_stage_iocsh
  at_stage accept malloc_ok none words s = unknown_hook
  at_stage accept malloc_ok (some when) [] s = usage
  at_stage accept malloc_ok (some when) (_ ∷ words) s =
      at_init_stage_iocsh accept malloc_ok when words s

  unfoldable pub at_init_stage_func :
      Names → Bool → Bool → Option Text → List Text → State → Outcome
  unfolding at_stage hook_name_to_number
  at_init_stage_func names accept malloc_ok hook words s =
      at_stage accept malloc_ok (hook_name_to_number names hooks hook) words s

-- The loop of `afterInitHook`: the commands that it runs in order. `none`: the fuel ran out.
unfoldable pub hook_loop : ℕ → (ℕ → Item) → ℕ → Option ℕ → Option (List Command)
hook_loop fuel heap state none = some []
hook_loop zero heap state (some a) = none
hook_loop (suc fuel) heap state (some a) = elim (hook_loop fuel heap state (heap a).next) [
  | none ↦ none
  | some rest ↦ some (if (heap a).when == state then (heap a).command ∷ rest else rest)
]

-- `afterInitHook`. A list of distinct items is no longer than the number of items.
unfoldable pub after_init_hook : State → ℕ → Option (List Command)
unfolding hook_loop
after_init_hook s state = hook_loop s.fresh s.heap state s.cmdlist

-- The static variables before the first call.
abbrev pub initial : State
initial = record {
  heap = λ _. record { next = none; when = 0; command = unset };
  fresh = 0;
  cmdlist = none;
  cmdlast = head;
  first_time = true;
  registered = 0;
}
