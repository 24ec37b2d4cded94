-- ===== src/Drivers/Gcc/Cli/Accepted.antt =====
-- What the validation makes of the options for the standard and for the C++ library.
