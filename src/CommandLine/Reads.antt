-- ===== src/CommandLine/Reads.antt =====
-- What CommandLine::read makes of the words of a program's arguments.
use yat.CommandLine.{CommandLine}
