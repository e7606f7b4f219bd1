-- ===== src/Create/Run/Refused.antt =====
-- tools/create_checkpoint.py: how far it goes when it fails.
use darwin_vm.Prelude.{◌≡◌, true}
use darwin_vm.Prelude.Result.{Result, ok, raise}
use darwin_vm.Create.{owns}
use darwin_vm.Create.Given.{Given}
use darwin_vm.Checkpoint.Session.{Session, Failure, tag_taken}
use darwin_vm.Checkpoint.Session.Adding.{IsAfter}
use darwin_vm.Create.Run.Heard.{IsMoved}
use darwin_vm.Create.Run.Order.{is_quiet, is_before}

-- The ways in which no checkpoint is made.
pub data IsRefused (g : Given) (s t : Session) (r : Failure) : Type 0 where
  not_owner : owns g.resolve g.source ≡ raise r → t ≡ s → IsRefused g s t r
  taken : g.out_exists ≡ true → r ≡ tag_taken → t ≡ s → IsRefused g s t r
  running : owns g.resolve g.source ≡ ok tt → IsAfter is_quiet s t → IsRefused g s t r
  saved :
      (u v : Session)
      → owns g.resolve g.source ≡ ok tt
      → IsAfter is_quiet s u
      → IsMoved g u v
      → IsAfter is_quiet s v
      → IsAfter is_before v t
      → IsRefused g s t r
