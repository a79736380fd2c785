-- ===== src/Web.antt =====
-- src/gproc/web.go: the pages of a master, and the server that gives them.
pub mod Pages
pub mod Tests
use gproc.Common.{
  Bool, true, false, ◌&&◌, List, [], ◌∷◌, Option, none, some, map, Str, codes, str_eq,
  if◌then◌else◌,
}
use gproc.Common.Dict.{Dict}
use gproc.Registry.{SlaveInfo, Slaves, MapOrder}

-- The data of a page, as its template gets them.
pub data Page : Type 0 where
  home : Page
  status_page : (title output : Str) → Page
  slaves_page : (title : Str) (slaves_out : List SlaveInfo) → Page

-- The arguments of the program that `Status` starts.
unfoldable pub status_argv : List Str
status_argv =
    codes "-locale=etchosts"
    ∷ codes "-localbin=true"
    ∷ codes "-merger=true"
    ∷ codes "-iopp=4445"
    ∷ codes "e"
    ∷ codes "././././././."
    ∷ codes "/bin/echo"
    ∷ codes "up"
    ∷ []

-- What a program wrote to its standard output, and the error of `cmd.Output`.
abbrev pub Output : Type 0
Output = Str × Option Str

-- `Status`, where `output` runs this program on arguments: the error is logged only.
unfoldable pub status : (List Str → Output) → Page
unfolding status_argv
status output = let (b, err) = output status_argv in status_page (codes "Status") b

-- `ExtendedSlaveInformation`
unfoldable pub extended_slave_information : MapOrder → Slaves → Page
extended_slave_information go slaves =
    slaves_page (codes "Extended Slave Information") (map (λ e. e.1) (go.order slaves.slaves))

-- The handlers of `web`: `/` is for every path that has no other handler.
unfoldable pub page_of : MapOrder → (List Str → Output) → Slaves → Str → Page
unfolding status extended_slave_information
page_of go output slaves path =
    if str_eq path (codes "/status")
    then status output
    else if str_eq path (codes "/extended-slave-information")
    then extended_slave_information go slaves
    else home

-- `web` starts the server if its four templates can be read.
unfoldable pub web : (Str → Bool) → Bool
web parses =
    parses (codes "html/status.template")
    && (parses (codes "html/extended-slave-information.template")
        && (parses (codes "html/header.template") && parses (codes "html/footer.template")))
