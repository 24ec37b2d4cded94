-- ===== src/Drivers/Samples.antt =====
-- Command lines, on which the theorems of the drivers are applied.
use buildozer.Common.{true, Option, none, List, [], ◌∷◌, ◌≡◌, Text, codes, not, ◌&&◌, if◌then◌else◌}
use buildozer.Drivers.Gcc
use buildozer.Drivers.Gcc.{
  mode_compile_only, mode_link, mode_compile_and_link, is_empty, compiler_flag,
}
use buildozer.Drivers.Gcc.Tokens.{tokens, Field, get, contribution, gather, get-parse_command_line}
use buildozer.Drivers.Gcc.Words.{words, has_word, value_of_o, parse_command_line-words}
use buildozer.Drivers.Gcc.Cli
use buildozer.Drivers.Gcc.Cli.{clang_cxx}
use buildozer.Drivers.Ar
use buildozer.Drivers.Ar.{missing_arg, no_output_file}

-- `g++ main.cpp util.o -lm -shared -o app -Wall`
abbrev build : List Text
build =
    codes "main.cpp"
    ∷ codes "util.o"
    ∷ codes "-lm"
    ∷ codes "-shared"
    ∷ codes "-o"
    ∷ codes "app"
    ∷ codes "-Wall"
    ∷ []

-- `g++ main.cpp -o app -Wall`
abbrev plain : List Text
plain = codes "main.cpp" ∷ codes "-o" ∷ codes "app" ∷ codes "-Wall" ∷ []

-- `g++ util.o -o app`
abbrev link : List Text
link = codes "util.o" ∷ codes "-o" ∷ codes "app" ∷ []

abbrev no_rel : Text → Text → Option Text
no_rel base target = none

get-parse_command_line_example :
    get Field.libraries (Gcc.parse_command_line build)
    ≡ gather (contribution Field.libraries) (tokens build)
get-parse_command_line_example = get-parse_command_line Field.libraries build

parse_command_line-words_example :
    let p = Gcc.parse_command_line build in
    (p.mode ≡ (
      if has_word (codes "-c") (words build)
      then mode_compile_only
      else if is_empty p.source_files && not (is_empty p.object_files)
      then mode_link
      else mode_compile_and_link))
    × (p.is_shared_library ≡ has_word (codes "-shared") (words build))
    × (p.output_file ≡ value_of_o [] (words build))
    × (p.original_args ≡ build)
parse_command_line-words_example = parse_command_line-words build

abbrev config : Cli.CliConfig
config = record { name = codes "clang++"; type = clang_cxx; supports_stdlib = true }

-- `ar --target elf64 rcs libx.a x.o`
abbrev archive_options : List Text
archive_options = codes "--target" ∷ codes "elf64" ∷ []
