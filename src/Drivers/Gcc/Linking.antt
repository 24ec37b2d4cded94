-- ===== src/Drivers/Gcc/Linking.antt =====
-- Which options of a command line reach the job that is submitted.
use buildozer.Common.{
  Bool, true, false, Option, List, [], ◌∷◌, ◌++◌, if◌then◌else◌, Text, codes, ◌≡◌, arith, ap, ◌∙◌,
  sym,
}
use buildozer.Proto.Job.{cpp_link}
use buildozer.Drivers.Gcc.{ParsedArgs, kind, parse_command_line}
use buildozer.Drivers.Gcc.Tokens.{tokens, Field, any_kind}
use buildozer.Drivers.Gcc.Mode.{
  parse_command_line_scalars, parse-linker_option, tokens-linker_option, kind-linker_option, is_c,
  is_shared, is_output, last_output,
}
use buildozer.Drivers.Gcc.CppJob.{is_link, job_spec, create_cpp_link_job, input_data_ids}

-- Two command lines that differ only in what a link job does not use.
record SameForLink (p q : ParsedArgs) : Type 0 where
  objects : p.object_files ≡ q.object_files
  libraries : p.libraries ≡ q.libraries
  library_files : p.library_files ≡ q.library_files
  library_dirs : p.library_dirs ≡ q.library_dirs
  linker_flags : p.linker_flags ≡ q.linker_flags
  output : p.output_file ≡ q.output_file
  shared : p.is_shared_library ≡ q.is_shared_library
  mode : is_link p.mode ≡ is_link q.mode

create_cpp_link_job-cong :
    (rel : Text → Text → Option Text) (p q : ParsedArgs) (work_dir : Text)
    → SameForLink p q
    → create_cpp_link_job rel p work_dir ≡ create_cpp_link_job rel q work_dir
unfolding create_cpp_link_job
create_cpp_link_job-cong rel p q work_dir h = ground arith

if-same : (b : Bool) (x : Text) → (if b then x else x) ≡ x
if-same b x = ground arith

-- In front of a command line it changes nothing that the kinds of the tokens decide.
linker_option_scalars :
    (rest : Text) (args : List Text)
    → let ts = tokens ((codes "-Wl," ++ rest) ∷ args) in
      (any_kind is_c ts ≡ any_kind is_c (tokens args))
      × (any_kind is_shared ts ≡ any_kind is_shared (tokens args))
      × (last_output [] ts ≡ last_output [] (tokens args))
linker_option_scalars rest args = rw (tokens-linker_option rest args) (
  rw (kind-linker_option rest),
  rw (kind-linker_option rest),
  ap (λ v. last_output v (tokens args)) (if-same (is_output (kind (codes "-Wl," ++ rest))) []),
)

SameForLink-linker_option :
    (rest : Text) (args : List Text)
    → SameForLink (parse_command_line ((codes "-Wl," ++ rest) ∷ args)) (parse_command_line args)
SameForLink-linker_option rest args =
    let f = λ (k : Field). parse-linker_option k rest args in
    let (m, s, o, a) = parse_command_line_scalars ((codes "-Wl," ++ rest) ∷ args) in
    let (m', s', o', a') = parse_command_line_scalars args in
    let (c, h, l) = linker_option_scalars rest args in
    record {
      objects = f Field.object_files;
      libraries = f Field.libraries;
      library_files = f Field.library_files;
      library_dirs = f Field.library_dirs;
      linker_flags = f Field.linker_flags;
      output = o ∙ (l ∙ sym o');
      shared = s ∙ (h ∙ sym s');
      mode = ap is_link (m ∙ (cc (c, f Field.source_files, f Field.object_files) ∙ sym m'));
    }

-- A linker option spelled `-Wl,…` in front of a command line that makes a link job is lost: the
-- job's specification is the same as without it.
job_spec-linker_option :
    (rel : Text → Text → Option Text) (rest : Text) (args : List Text) (work_dir : Text)
    → is_link (parse_command_line args).mode ≡ true
    → job_spec rel (parse_command_line ((codes "-Wl," ++ rest) ∷ args)) work_dir
      ≡ job_spec rel (parse_command_line args) work_dir
unfolding job_spec
job_spec-linker_option rel rest args work_dir h =
    let same = SameForLink-linker_option rest args in
    rw (same.mode, h) (ap cpp_link (create_cpp_link_job-cong rel _ _ work_dir same))

-- A command line that compiles and links, or only compiles, makes a compile job, and what it
-- names for the linker is lost: the specification depends only on the sources, the compiler
-- flags, the include directories, the defines and the output file, so two command lines that
-- agree on these make the same job, whatever libraries, objects and linker flags they name.
job_spec-ignores_linking :
    (rel : Text → Text → Option Text) (args others : List Text) (work_dir : Text)
    → let p = parse_command_line args in
      let q = parse_command_line others in
      is_link p.mode ≡ false
      → is_link q.mode ≡ false
      → p.source_files ≡ q.source_files
      → p.compiler_flags ≡ q.compiler_flags
      → p.include_dirs ≡ q.include_dirs
      → p.defines ≡ q.defines
      → p.output_file ≡ q.output_file
      → (job_spec rel p work_dir ≡ job_spec rel q work_dir)
        × (input_data_ids rel p work_dir ≡ input_data_ids rel q work_dir)
unfolding job_spec input_data_ids
job_spec-ignores_linking rel args others work_dir hp hq s c i d o = (ground arith, ground arith)
