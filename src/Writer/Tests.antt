-- ===== src/Writer/Tests.antt =====
-- Writes of slot 7 of a small shelf, over sg_ses and through the helper's socket.
use ktn_enclosure_manager.Common.{
  ◌++◌, ◌≤◌, ℤ, pos, true, false, none, some, List, [], ◌∷◌, any, is_some, if◌then◌else◌, ◌==◌,
  nat_eq, list_eq, ◌≡◌, refl, arith, ◌⊎◌,
}
use ktn_enclosure_manager.Common.Dict.{Dict, get}
use ktn_enclosure_manager.Common.Text.{Text, codes, join, starts_with, strip}
use ktn_enclosure_manager.Errors.{Exception, ok}
use ktn_enclosure_manager.Locate.Request.{PyValue, str_value, bool_value, validate_request}
use ktn_enclosure_manager.Locate.Plan.{Plans}
use ktn_enclosure_manager.Sysfs.Tests.{World, kernel, roots}
use ktn_enclosure_manager.Writer.Paths.{decimal, is_absolute, path_text, parent_name}
use ktn_enclosure_manager.Writer.Runner.{
  Shell, ProcessEnd, ended, SesFailure, ses_error, done, set_ident,
}
use ktn_enclosure_manager.Writer.Local.{LocateWriter, direct_write, direct_writer}
use ktn_enclosure_manager.Writer.Helper.{Codec, object, answer_locate, dispatch_object, handle}
use ktn_enclosure_manager.Writer.Client.{Socket, request_of, op_of, ends_line, helper_write}
use ktn_enclosure_manager.Polling.Delegated.{read_here, admitted, read_page_for-delegated}
use ktn_enclosure_manager.Polling.HelperRunner.{HelperReads, read_request, read_page_for}
use ktn_enclosure_manager.Polling.Runner.{output}
use ktn_enclosure_manager.Writer.Commands.{ends_well, failure_of, set_ident-runs}
use ktn_enclosure_manager.Writer.Boundary.{last_chunk, delegated, response, helper_write-delegated}
use ktn_enclosure_manager.Ident.Host.{Host, Sys}
use ktn_enclosure_manager.Ident.Identify.{Request}
use ktn_enclosure_manager.Ident.Worlds.{Call}
use ktn_enclosure_manager.Ident.Driven.{manager_host}

abbrev page : List Text → Text
page = join (codes "\n")

abbrev cf_text : Text
cf_text = page (
    codes "    Element type: Array device slot, subenclosure id: 0"
    ∷ codes "      number of possible elements: 1"
    ∷ [])

abbrev aes_text : Text
aes_text = page (
    codes "    Element type: Array device slot, subenclosure id: 0 [ti=0]"
    ∷ codes "      Element index: 0  eiioe=0"
    ∷ codes "        device slot number: 7"
    ∷ [])

-- An sg_ses that prints the pages, and lights the slot for any other command.
abbrev run_of : World → List Text → ProcessEnd × World
run_of w argv =
    if any (λ a. a == codes "cf") argv
    then (ended false cf_text [], w)
    else if any (λ a. a == codes "aes") argv
    then (ended false aes_text [], w)
    else (ended false [] [], (w.0, any (λ a. a == codes "--set=ident") argv))

abbrev shell : Shell World
shell = record { execute = run_of; is_file = λ w p. true }

abbrev sg_ses : Text
sg_ses = codes "/usr/bin/sg_ses"

abbrev no_plans : Plans
no_plans = record { type_index = []; slot_to_element = [] }

abbrev start : World
start = (100, false)

abbrev id : Text
id = codes "0x50060480aabbcc00"

path_test :
    (path_text (codes "/dev//./sg16/") ≡ codes "/dev/sg16")
    × (parent_name (codes "/dev/sg16") ≡ codes "dev")
unfolding path_text parent_name
path_test = (refl, refl)

abbrev learnt : Plans
learnt = record { type_index = (id, (0, 1)) ∷ []; slot_to_element = (id, (7, some 0) ∷ []) ∷ [] }

set_ident-runs_example :
    ((e : SesFailure) × (set_ident sg_ses shell (codes "/dev/sg16") 0 7 true start
        ≡ (ses_error e, start)))
    ⊎ ((0 ≤ 1023)
        × (7 ≤ 1023)
        × (is_absolute (codes "/dev/sg16") ≡ true)
        × (run : ProcessEnd) × (after : World) × (shell.execute start (
              sg_ses
              ∷ codes "--no-time"
              ∷ (codes "--index=" ++ (decimal 0 ++ (codes "," ++ decimal 7)))
              ∷ codes "--set=ident"
              ∷ path_text (codes "/dev/sg16")
              ∷ [])
            ≡ (run, after))
        × (set_ident sg_ses shell (codes "/dev/sg16") 0 7 true start
            ≡ ((if ends_well run then done tt else ses_error (failure_of run)), after)))
set_ident-runs_example = set_ident-runs sg_ses shell (codes "/dev/sg16") 0 7 true start

-- A codec of two texts, and a socket whose other end is the helper.
abbrev State : Type 0
State = World × Plans

abbrev writer : LocateWriter State
writer = direct_writer kernel roots sg_ses shell

abbrev message : Exception → Text
message e = codes "refused"

abbrev asked : Dict Text PyValue
asked = request_of (op_of true) id (pos 7)

abbrev codec : Codec
codec = record {
  dumps = λ d. if is_some (get (codes "op") d) then codes "Q" else codes "R";
  loads = λ t. if t == codes "Q" then object asked else object (answer_locate true);
}

abbrev socket : Socket State
socket = record {
  exchange = λ s line.
      let (reply, after) = handle kernel roots sg_ses shell writer [] codec message line s in
      (some (reply ∷ []), after);
}

abbrev line : Text
line = codes "R\n"

told_test :
    response kernel roots sg_ses shell writer [] message codec socket
      (id, pos 7)
      true
      (start, no_plans)
    ≡ answer_locate true
unfolding dispatch_object direct_write starts_with
told_test = refl

helper_write-delegated_example :
    helper_write codec socket id (pos 7) true (start, no_plans)
    ≡ delegated kernel roots sg_ses shell writer [] (id, pos 7) true (start, no_plans)
unfolding validate_request handle strip get starts_with direct_write ends_line
helper_write-delegated_example =
    helper_write-delegated kernel roots sg_ses shell writer [] message codec socket id (pos 7) true
      (start, no_plans) (id, pos 7) (line ∷ []) refl refl refl (last_chunk refl) (omega arith) refl

-- The same for a page that is read.
abbrev configuration : Text
configuration = codes "configuration"

abbrev page_answer : Dict Text PyValue
page_answer = (codes "ok", bool_value true) ∷ (codes "output", str_value cf_text) ∷ []

abbrev page_codec : Codec
page_codec = record {
  dumps = λ d. if is_some (get (codes "op") d) then codes "Q" else codes "R";
  loads =
      λ t. if t == codes "Q" then object (read_request id configuration) else object page_answer;
}

abbrev page_socket : Socket State
page_socket = record {
  exchange = λ s line.
      let (reply, after) = handle kernel roots sg_ses shell writer [] page_codec message line s in
      (some (reply ∷ []), after);
}

abbrev text_of_value : PyValue → Text
text_of_value (str_value t) = t
text_of_value _ = codes "?"

abbrev reading : HelperReads State
reading = record {
  str = text_of_value;
  not_listed = codes "not listed";
  unavailable = codes "unavailable";
  exists = λ s. true;
}

page_test :
    (read_page_for page_codec page_socket reading id configuration (start, no_plans)).0
    ≡ output cf_text
unfolding read_page_for handle starts_with
page_test = refl

read_page_for-delegated_example :
    read_page_for page_codec page_socket reading id configuration (start, no_plans)
    ≡ read_here kernel roots sg_ses shell writer [] message page_codec page_socket reading
        (admitted kernel roots sg_ses shell writer [] message page_codec page_socket reading id
          configuration start)
        configuration
        (start, no_plans)
unfolding handle strip get starts_with ends_line
read_page_for-delegated_example =
    read_page_for-delegated kernel roots sg_ses shell writer [] message page_codec page_socket
      reading id configuration (start, no_plans) (line ∷ []) refl refl refl (last_chunk refl)
      (omega arith) refl

-- A manager whose state file is never written.
abbrev process : Host State
process = record {
  read = λ w id slot. (ok false, w);
  write = λ w id slot on. (ok on, w);
  save = λ w rs. w;
  load = λ w. none;
  utc = λ w. w.0.0;
  monotonic = λ w. w.0.0;
  message = λ e. codes "LocateError";
}

abbrev lamp : Request
lamp = record { on = true; user = codes "admin"; duration_seconds = some 60; serial = none }

abbrev idle : Sys State
idle = record {
  manager = record { records = []; clear_failures = []; last_write = [] };
  world = (start, no_plans);
  trail = [];
}

abbrev driven : Host State
driven = manager_host kernel roots sg_ses shell process

-- Slot 9 is on no page of the shelf; slot 7 is lit after that was found.
abbrev lamp_on : ℤ → Call
lamp_on slot = record { enclosure_id = id; ses_slot = slot; request = lamp }
