-- ===== src/Node/Host.antt =====
-- ipsecnode: the commands that the daemon runs on its host (`tokio::process::Command`) and the
-- records that it reads from Valkey. `nft_batch` is a run of `nft -f -` on a text. What the host answers is a function of the commands run so far.
use fleetsuite.Common.{Bool, false, Option, none, some, List, ◌∷◌, ◌++◌}
use fleetsuite.Common.Text.{Text, codes}

pub data Command : Type 0 where
  ip nft vppctl conntrack modprobe : List Text → Command
  nft_batch : Text → Command

pub record Output : Type 0 where
  pub success : Bool
  pub stdout : Text
  pub stderr : Text

-- The commands run, the last one first, each with its output; `none` where it could not be spawned.
abbrev pub Log : Type 0
Log = List (Command × Option Output)

-- A reply of Valkey to GET: an error, or what the key holds.
pub data Reply : Type 0 where
  failed : Reply
  reply : Option Text → Reply

abbrev pub Host : Type 0
Host = Log → Command → Option Output

abbrev pub run : Host → Command → Log → Option Output × Log
run host c log = (host log c, (c, host log c) ∷ log)

abbrev pub succeeded : Option Output → Bool
succeeded none = false
succeeded (some out) = out.success

-- `ip`, `nft` and `vppctl` as fallible calls: whether the command ran and succeeded.
abbrev pub run_ok : Host → Command → Log → Bool × Log
run_ok host c log = (succeeded (host log c), (c, host log c) ∷ log)

abbrev pub host_prefix : Text → Text
host_prefix addr = addr ++ codes "/32"
