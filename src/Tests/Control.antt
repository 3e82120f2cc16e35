-- ===== src/Tests/Control.antt =====
-- A request that fails, at a concrete state.
use yank.Prelude.{
  ◌≡◌, refl, true, false, none, some, [], ◌∷◌, Result, err, Error, selection_over_limit, bad_ticket,
}
use yank.Prelude.Bytes.{Str, codes, eq_list}
use yank.Config.Mesh.{MeshState, alive}
use yank.Net.Pair.{PairTicket}
use yank.Daemon.Store.{new_store}
use yank.Daemon.Service.{Service}
use yank.Daemon.Copying.{Outside, copy_files, run_copy, spool, take_all}
use yank.Daemon.Service.{copy_spooled, try_change}
use yank.Files.Walk.{
  FileType, walk, visit_roots, visit_all, visit, add_file, sort_sources, insert_source,
}
use yank.Files.Manifest.Sorted.{no_equal_neighbours}
use yank.Files.Spool.{take, has, file_name, rename}
use yank.Prelude.Dir.{read, write, delete}
use yank.Clip.Copy.{selection_size, of_files}
use yank.Clip.Settings.{max_bytes}
use yank.Files.Uri.{as_text, uri_list, gnome_copied_files}
use yank.Clip.State.{copy as copy_board}
use yank.Daemon.Control.Parts.{SameClip-refl}
use yank.Daemon.Control.{Context, Request, copy_paths, answer}
use yank.Daemon.Control.Refusals.{Kept, answer-Kept}
use yank.Tests.HexDigits.{hex, encode}
use yank.Tests.Spool.{empty}
use yank.Tests.Data.{crates, at, board_of, clip_of, settings}

abbrev mesh : MeshState
mesh = (1, record { version = 1; status = alive (codes "desk") }) ∷ []

abbrev service : Service
service = record {
  board = record (board_of 1) {
    clip = some (clip_of 1000 3);
    settings = record settings { max_size = 1 };
  };
  head = none;
  disk = none;
  jobs = [];
  commands = [];
  has_backend = false;
}

abbrev context : Context
context = record {
  spool = empty;
  clip = service;
  pairing = record { issued = none; store = new_store 2 mesh };
}

abbrev show_nothing : Error → Str
show_nothing e = []

abbrev no_ticket : Str → Result PairTicket
no_ticket s = err bad_ticket

-- One plain file, which is taken in; then the copy is refused, as its paths are over the limit.
abbrev outside : Outside
outside = record {
  listing = λ root.
      some
        (record { file_type = FileType.file; path = root; name = some (codes "x"); size = some 1 })
      ∷ [];
  content = λ path. some (9 ∷ []);
  drawn = λ path. codes ".tmpA";
  meanwhile = λ world. world;
  gone = false;
}

abbrev request : Request
request = copy_paths (codes "/x" ∷ []) none outside

refused :
    (answer Unit crates hex
      (λ c. tt)
      show_nothing
      (λ id. codes "7f")
      (λ t. [])
      no_ticket
      true
      (at 0)
      (at 0)
      request
      context).1
    ≡ err selection_over_limit
unfolding answer copy_files run_copy spool take_all walk copy_spooled try_change copy_board
    visit_roots visit_all visit add_file no_equal_neighbours sort_sources insert_source take has
    read write eq_list file_name encode delete rename selection_size of_files as_text uri_list
    gnome_copied_files max_bytes
refused = refl

answer-Kept_example :
    Kept context
      (answer Unit crates hex
        (λ c. tt)
        show_nothing
        (λ id. codes "7f")
        (λ t. [])
        no_ticket
        true
        (at 0)
        (at 0)
        request
        context).0
answer-Kept_example =
    answer-Kept Unit crates hex (λ c. tt) show_nothing (λ id. codes "7f") (λ t. []) no_ticket true
      (at 0) (at 0) request context selection_over_limit (λ store held. SameClip-refl held) refused
