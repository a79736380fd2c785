-- ===== src/Web/Tests.antt =====
-- The pages of src/gproc/web.go.
use gproc.Common.{ℕ, false, List, [], ◌∷◌, ◌≡◌, ◌↔◌, refl, some, none, codes, split_2}
use mathlib.Core.List.{Mem}
use gproc.Registry.Tests.{in_place, first}
use gproc.Common.Dict.{Dict, lookup, insert}
use gproc.Registry.{new_slaves, info_of, add}
use gproc.Forth.{Op}
use gproc.CommandLine.Flags.{exit_usage, main, parse_from, word_of}
use gproc.Web.{
  home, status_page, slaves_page, status_argv, status, extended_slave_information, page_of, web,
}
use gproc.Web.Pages.{slaves_out, Change, reports, after, page_lists}

-- The program that the page of the status starts exits in `flag.Parse`, since no flag is called
-- `-locale`.
status_exits : (fuel : ℕ) (ops : Dict Op) → main fuel ops status_argv ≡ exit_usage
unfolding main status_argv parse_from word_of split_2 lookup
status_exits fuel ops = refl

-- Then the page is empty.
status_empty : status (λ argv. ([], some (codes "exit status 2"))) ≡ status_page (codes "Status") []
unfolding status
status_empty = refl

abbrev history : List Change
history = reports first 0 ∷ reports first 1 ∷ []

-- A slave that reports again is there once, with its new connection.
listed_again :
    page_of in_place
      (λ argv. ([], none))
      (after history new_slaves)
      (codes "/extended-slave-information")
    ≡ slaves_page (codes "Extended Slave Information") (info_of first 1 ∷ [])
unfolding page_of extended_slave_information add new_slaves insert
listed_again = refl

other_path : page_of in_place (λ argv. ([], none)) new_slaves (codes "/status/") ≡ home
unfolding page_of
other_path = refl

no_template : web (λ file. false) ≡ false
unfolding web
no_template = refl

page_lists_example :
    Mem
      (info_of first 1)
      (slaves_out (extended_slave_information in_place (after history new_slaves)))
    ↔ (lookup (info_of first 1).id (after history new_slaves).slaves ≡ some (info_of first 1))
page_lists_example = page_lists in_place history (info_of first 1)
