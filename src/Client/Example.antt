-- ===== src/Client/Example.antt =====
-- The header of the form for the tests.
use esif_client_server.Common.{refl, arith}
use esif_client_server.Form.Example.{student}
use esif_client_server.Client.Marking.{HasHeader}

pub student-HasHeader : HasHeader student
student-HasHeader = record {
  gender = (refl, omega arith);
  section = (refl, omega arith);
  group = (refl, omega arith);
  name_line = refl;
  name = omega arith;
}
