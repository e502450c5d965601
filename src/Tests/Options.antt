-- ===== src/Tests/Options.antt =====
-- The option parser: util/upgetopt.cpp.
use libappupdater.Prelude.{Bytes, List, [], ◌∷◌, some, none, ◌≡◌, refl, codes, arith, drop}
use libappupdater.Util.Getopt.{
  Scanner, Item, option, getopt_loop, kind, read_argument, next_argument, getopt,
}
use libappupdater.Util.Getopt.CommandLine.{Reads, behind}
use libappupdater.Util.Getopt.Reading.{getopt_loop-Reads}

-- `updatetool -iV 1.2 check`
abbrev command : List Bytes
command = codes "updatetool" ∷ codes "-iV" ∷ codes "1.2" ∷ codes "check" ∷ []

abbrev begin : Scanner
begin = record { optind = 1; place = []; optarg = none; optopt = 0 }

getopt_loop-Reads_example :
    (r : List Item × Scanner) × (getopt_loop 30 command (codes "V:H:i") begin ≡ some r)
    × Reads (codes "V:H:i") [] (behind command [] 1) r.0 (drop r.1.optind command)
getopt_loop-Reads_example = getopt_loop-Reads 30 command (codes "V:H:i") begin (omega arith)

two_options :
    getopt_loop 30 command (codes "V:H:i") begin
    ≡ some (
      (option b'i', none) ∷ (option b'V', some (codes "1.2")) ∷ [],
      record { optind = 3; place = codes "check"; optarg = some (codes "1.2"); optopt = b'V' },
    )
unfolding getopt_loop kind read_argument next_argument getopt
two_options = refl
