-- ===== src/Poller/Tests.antt =====
-- The theorems on channels and the poller, with a kernel that keeps a table of descriptors.
use my_cpp_code.Common.{
  ℕ, refl, ◌≡◌, ◌≢◌, arith, true, false, ◌&&◌, List, [], ◌∷◌, Option, none, some, ◌==◌,
  if◌then◌else◌,
}
use mathlib.Core.Option.{none-ne-some}
use my_cpp_code.Poller.Channel.{Channel, added}
use my_cpp_code.Poller.Epoll.{
  Kernel, CtlOp, ctl_add, ctl_mod, ctl_del, accepts, leaves, succeeds, eexist, enoent, EpollPoller,
}
use my_cpp_code.Poller.Registration.{
  Call, enable_read, enable_write, disable_all, remove, calls, InStep, calls-InStep,
}

abbrev Table : Type 0
Table = ℕ → Option ℕ

-- It has no memory for a seventh descriptor.
abbrev table_error : CtlOp → Option ℕ → ℕ → Option ℕ
table_error ctl_add (some e) fd = some 17
table_error ctl_add none fd = if fd == 7 then some 12 else none
table_error ctl_mod none fd = some 2
table_error ctl_mod (some e) fd = none
table_error ctl_del none fd = some 2
table_error ctl_del (some e) fd = none

abbrev table_ctl : Table → CtlOp → ℕ → ℕ → Table × Option ℕ
table_ctl s op fd e = (
  (λ g. if g == fd && succeeds (table_error op (s fd) fd) then leaves op e else s g),
  table_error op (s fd) fd,
)

table_refuses :
    (op : CtlOp) (e : Option ℕ) (fd : ℕ)
    → accepts op e ≡ false
    → succeeds (table_error op e fd) ≡ false
table_refuses ctl_add none fd h = cc
table_refuses ctl_add (some e) fd h = refl
table_refuses ctl_mod none fd h = refl
table_refuses ctl_mod (some e) fd h = cc
table_refuses ctl_del none fd h = refl
table_refuses ctl_del (some e) fd h = cc

table_documented :
    (op : CtlOp) (e : Option ℕ) (fd errno : ℕ)
    → accepts op e ≡ true
    → table_error op e fd ≡ some errno
    → (errno ≢ eexist) × (errno ≢ enoent)
table_documented ctl_add none fd errno h f = ground arith
table_documented ctl_add (some e) fd errno h f = absurd (ground arith)
table_documented ctl_mod none fd errno h f = absurd (ground arith)
table_documented ctl_mod (some e) fd errno h f = absurd (ground arith)
table_documented ctl_del none fd errno h f = absurd (ground arith)
table_documented ctl_del (some e) fd errno h f = absurd (ground arith)

abbrev table_kernel : Kernel
table_kernel = record {
  State = Table;
  ctl = table_ctl;
  registered = λ s fd. s fd;
  ctl_refuses = λ s op fd e h. table_refuses op (s fd) fd h;
  ctl_error = λ s op fd e errno h f. table_documented op (s fd) fd errno h f;
  ctl_registered = λ s op fd e g. refl;
}

-- A channel that is registered for reading.
abbrev channel : Channel
channel = record { address = 1; fd = 9; events = 3; revents = 0; index = added; tied = false }

abbrev poller : EpollPoller table_kernel
poller = record {
  channels = λ g. if g == 9 then some 1 else none;
  kernel = λ g. if g == 9 then some 3 else none;
  first_error = none;
  aborted = false;
}

channel-InStep : InStep table_kernel channel poller
channel-InStep = record { entry = λ h. refl; accepted = λ errno h. absurd (none-ne-some errno h) }

abbrev some_calls : List Call
some_calls = enable_write ∷ disable_all ∷ enable_read ∷ remove ∷ []

calls-InStep_example :
    InStep table_kernel
      (calls table_kernel some_calls (channel, poller)).0
      (calls table_kernel some_calls (channel, poller)).1
calls-InStep_example = calls-InStep table_kernel some_calls channel poller channel-InStep
