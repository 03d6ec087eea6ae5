-- ===== src/Gday/Program/Tests.antt =====
-- The processes of gday/src/main.rs with a server that answers as this repository's does: it creates
-- the room, and sends no contacts.
use gday_old.Chat.Terminal.{chats}
use gday_old.Base.{true, ◌≢◌, [], ◌∷◌}
use gday_old.Base.Outcome.{ok, err}
use gday_old.Base.Text.{codes}
use gday_old.HolePunch.Contact.{room_created}
use gday_old.Chat.Offer.{FileSystem, file}
use gday_old.Chat.Run.{Ran}
use gday_old.Chat.Run.Tests.{one_file, any_bytes, creator}
use gday_old.Gday.{World, goes_on}
use gday_old.Gday.Tests.{host, by_v6}
use gday_old.Gday.Program.{Local, send, main}
use gday_old.Gday.Program.Unmet.{PlainRoute, main-unmet}

abbrev disk : FileSystem
disk = record {
  canonicalize = λ _. ok (codes "home" ∷ codes "b" ∷ []);
  metadata = λ _. ok (file 2);
  read_dir = λ _ _. err 1;
  can_open = λ _. true;
}

abbrev sender : Local
sender = record { file_system = disk; fuel = 1; answer = ok (codes "yes"); session = creator }

abbrev unmet_host : World
unmet_host = record host { route = by_v6 (ok (room_created 77) ∷ []) }

unmet_host-PlainRoute : PlainRoute unmet_host.route
unmet_host-PlainRoute addr = (tt, tt)

abbrev any_run : Ran
any_run = record { written = []; saved = []; rest = []; shown = []; ending = chats }

main-unmet_example :
    main one_file any_bytes unmet_host sender [] (send (codes "b" ∷ [])) ≢ goes_on any_run
main-unmet_example =
    main-unmet unmet_host unmet_host-PlainRoute one_file any_bytes sender [] (send (codes "b" ∷ []))
      any_run
