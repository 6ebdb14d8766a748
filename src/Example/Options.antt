-- ===== src/Example/Options.antt =====
-- The argument of server/server_example.c.
use rmt_library.Common.{◌≡◌, refl, false, none, some, List, [], ◌∷◌, Bytes, All, arith, str_eq}
use rmt_library.Example.{
  Command, cmd_search, cmd_set, cmd_get_task, cmd_set_task, cmd_send_file, cmd_recv_file, cmd_all,
  commands, text_of, find_command, select,
}

find_unknown :
    (text : Bytes) (cs : List Command)
    → All (λ c. str_eq (text_of c) text ≡ false) cs
    → find_command text cs ≡ cmd_search
find_unknown text [] h = refl
find_unknown text (c ∷ cs) h = ground (arith, h.0, find_unknown text cs h.1)

-- The name of each command selects this command; a text that is no name, and no argument at all, select the search.
pub select_lem :
    (c : Command) (text : Bytes)
    → All (λ known. str_eq (text_of known) text ≡ false) commands
    → (select (some (text_of c)) ≡ c)
      × (select (some text) ≡ cmd_search)
      × (select none ≡ cmd_search)
select_lem c text unknown = (named c, find_unknown text commands unknown, refl)
  where
    named : (c : Command) → select (some (text_of c)) ≡ c
    named cmd_search = refl
    named cmd_set = refl
    named cmd_get_task = refl
    named cmd_set_task = refl
    named cmd_send_file = refl
    named cmd_recv_file = refl
    named cmd_all = refl
